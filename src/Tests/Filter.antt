-- ===== src/Tests/Filter.antt =====
-- A request for the second and the third trace of the blocks 0 to 2, two of which the cache traced.
use edgeware_node.Prelude.{
  inl, inr, true, ◌≤◌, Bool-cases, ==_iff, ap, ℕ, ◌+◌, ◌==◌, if◌then◌else◌, ◌≡◌, refl, List, [],
  ◌∷◌, none, some, arith,
}
use edgeware_node.Prelude.Text.{bytes}
use edgeware_node.Prelude.Results.{ok}
use edgeware_node.Tracing.Types.{
  H256, CallType, TransactionTrace, TransactionTraceAction, TransactionTraceOutput,
}
use edgeware_node.TraceRpc.Filter.{
  RequestBlockId, FilterRequest, Client, Requester, fetch_traces, filter, prepare, is_wanted,
  heights,
}
use edgeware_node.TraceRpc.Filter.Window.{wanted, window, fetch_traces-window}
use edgeware_node.BTreeMap
use edgeware_node.TraceRpc.Cache.{pooled, cached}
use edgeware_node.TraceRpc.Cache.Loop.{Incoming, start_batch, get_traces, started, finished}
use edgeware_node.TraceRpc.Cache.Waiting.{waits_at}
use edgeware_node.TraceRpc.Requests.{World, Schedule, request_batch, cache_requester}
use edgeware_node.TraceRpc.Requests.Honesty.{Honest}
use edgeware_node.TraceRpc.Requests.Answered.{IsCalm, IsGood}
use edgeware_node.TraceRpc.Requests.Served.{succeeding, heard, trace_filter-window}
use edgeware_node.TraceRpc.Requests.Stops.{started_by, filter-stops}
use edgeware_node.TraceRpc.Filter.Range.{filter-window}

abbrev call_by : ℕ → ℕ → TransactionTrace
call_by caller position = record {
  action = TransactionTraceAction.call CallType.call caller 100 [] 20 0;
  block_hash = 900;
  block_number = 1;
  output = TransactionTraceOutput.error (bytes "Reverted");
  subtraces = 0;
  trace_address = [];
  transaction_hash = 61;
  transaction_position = position;
}

abbrev traces_of : H256 → List TransactionTrace
traces_of h =
    if h == 501
    then call_by 10 0 ∷ call_by 11 1 ∷ call_by 10 2 ∷ []
    else if h == 502
    then call_by 10 0 ∷ call_by 10 1 ∷ []
    else []

abbrev client : Client
client = record { best_number = 9; header = λ h. ok (some (500 + h)) }

-- The state counts what is asked of the task.
abbrev requester : Requester ℕ
requester = record {
  start_batch = λ hashes s. (ok s, s + 1);
  get_traces = λ h s. (ok (traces_of h), s + 1);
  stop_batch = λ batch_id s. s + 1;
}

abbrev request : FilterRequest
request = record {
  from_block = some (RequestBlockId.number 0);
  to_block = some (RequestBlockId.number 2);
  from_address = some (10 ∷ []);
  to_address = none;
  after = some 1;
  count = some 2;
}

-- The blocks that the requester knows.
abbrev Known : H256 → ℕ → Type 0
Known h s = Unit {0}

fetch_traces-window_example :
    (fetch_traces requester 500 request (501 ∷ 502 ∷ []) 2 7).0
    ≡ window 500 request (wanted request traces_of (501 ∷ 502 ∷ []))
fetch_traces-window_example =
    fetch_traces-window requester 500 request traces_of Known (λ h s ready. refl)
      (λ g h s held ready. tt) (501 ∷ 502 ∷ []) 7 (tt, (tt, tt))

filter-window_example : filter requester client 500 request 7 ≡ (
  window 500 request (wanted request traces_of (501 ∷ 502 ∷ [])),
  requester.stop_batch 7 ((fetch_traces requester 500 request (501 ∷ 502 ∷ []) 2 8).1),
)
unfolding is_wanted heights
filter-window_example =
    filter-window requester client 500 request traces_of Known (λ h s ready. refl)
      (λ g h s held ready. tt) (λ h. 500 + h) 0 2 7 7 8 (λ h low high. refl) refl refl (omega arith)
      refl (tt, (tt, tt))

-- A cache that has traced the first block and pooled another, for which a request waits.
abbrev world : World
world = record {
  task = record {
    inner = record {
      cached_blocks =
          (501, record { active_batch_count = 1; state = cached (ok (traces_of 501)) })
          ∷ (700, record { active_batch_count = 1; state = pooled true (0 ∷ []) 3 })
          ∷ [];
      batches = (4, 501 ∷ 700 ∷ []) ∷ [];
      next_batch_id = 5;
      next_channel = 6;
    };
    batch_expirations = [];
  };
  next_sender = 1;
}

world-Honest : Honest (λ h. ok (traces_of h)) world.task.inner
unfolding BTreeMap.get
world-Honest h = elim (Bool-cases (501 == h)) [
  | inl same ↦ rw same (ap (λ x. ok (traces_of x)) ((==_iff 501 h).0 same))
  | inr other ↦
      rw other
        (elim (Bool-cases (700 == h)) [ inl same ↦ rw same tt | inr none_left ↦ rw none_left tt ])
]

-- Others start a batch before each message, and block 700 is traced while a request waits.
abbrev before : ℕ → List Incoming
before ch = start_batch 0 (502 ∷ []) ∷ get_traces 0 502 ∷ []

abbrev meanwhile : ℕ → List Incoming
meanwhile ch = started 502 ∷ finished 700 (ok []) ∷ get_traces 0 502 ∷ []

abbrev schedule : Schedule
schedule = succeeding traces_of before meanwhile

schedule-IsCalm : IsCalm schedule 1
schedule-IsCalm ch = ((tt, (omega arith, tt)), (tt, (refl, (omega arith, tt))))

world-IsGood : IsGood schedule 1 1 world.task
unfolding BTreeMap.get
world-IsGood = (omega arith, world-Honest, λ x later c. fresh x later c)
  where
    fresh : (x : ℕ) → 1 ≤ x → (c : H256) → waits_at x c world.task.inner ≡ 0
    fresh x later c = ground arith

trace_filter-window_example :
    (filter (cache_requester schedule) client 500 request world).0
    ≡ window 500 request (wanted request traces_of (501 ∷ 502 ∷ []))
unfolding heights
trace_filter-window_example =
    trace_filter-window traces_of before meanwhile client 500 request (λ h. 500 + h) 0 2 world
      schedule-IsCalm world-IsGood (λ h low high. refl) refl refl (omega arith)

filter-stops_example :
    let batch_id = (heard schedule world).inner.next_batch_id in
    ((filter (cache_requester schedule) client 500 request world).1.task.batch_expirations
      ≡ started_by (prepare client 500 request) batch_id)
    × ((hashes : List H256)
        → BTreeMap.get batch_id ((request_batch schedule hashes world).1.task.inner.batches)
          ≡ some hashes)
filter-stops_example = filter-stops schedule 1 schedule-IsCalm client 500 request world
