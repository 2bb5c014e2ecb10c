-- ===== src/TraceRpc/BlockTraces/Replay.antt =====
-- Tracing a block, end to end: from the call trees of its transactions to the traces.
use mathlib.Core.List.{append_assoc}
use edgeware_node.Prelude.{
  if◌then◌else◌, ℕ, suc, ◌+◌, ◌%◌, ◌^◌, ◌≤◌, ◌<◌, ◌≡◌, refl, ap, ◌∙◌, subst, List, [], ◌∷◌, ◌++◌,
  map, some, arith, length, get_elem?, length-append,
}
use edgeware_node.Prelude.Results.{ok, ok_or, ◌>>=◌}
use edgeware_node.TraceRpc.Errors.{unexpected_transaction}
use edgeware_node.BTreeMap.{BTreeMap}
use edgeware_node.Prelude.Text.{Bytes, bytes, bytes_eq}
use edgeware_node.Tracing.Types.{
  H256, U256, CallResult, CreateResult, CreateType, BlockscoutCall, BlockscoutCallInner,
  TransactionTrace, TransactionTraceAction, TransactionTraceOutput, TransactionTraceResult,
}
use edgeware_node.Tracing.CallList.{default, events}
use edgeware_node.Tracing.CallList.Tree.{size}
use edgeware_node.Tracing.CallList.Blocks.{
  Transaction, call_tree, block_events, block_entries, block_size, transaction_entries,
}
use edgeware_node.Tracing.CallList.Block.{block_entries_lem}
use edgeware_node.Tracing.Formatters.{retain_filled, format_entry, format_from, format}
use edgeware_node.TraceRpc.BlockTraces.{Header, Chain, filled, fill, reword, cache_block}

-- What a trace says of an error.
abbrev pub worded : Bytes → Bytes
worded e = if bytes_eq e (bytes "execution reverted") then bytes "Reverted" else e

abbrev pub action_said : BlockscoutCall → BlockscoutCallInner → TransactionTraceAction
action_said t (BlockscoutCallInner.call call_type to input res) =
    TransactionTraceAction.call call_type t.from t.gas input to t.value
action_said t (BlockscoutCallInner.create init res) =
    TransactionTraceAction.create CreateType.create t.from t.gas init t.value
action_said t (BlockscoutCallInner.self_destruct balance to) =
    TransactionTraceAction.suicide t.from balance to

abbrev pub output_said : U256 → BlockscoutCallInner → TransactionTraceOutput
output_said used (BlockscoutCallInner.call call_type to input (CallResult.output out)) =
    TransactionTraceOutput.result (TransactionTraceResult.call used out)
output_said used (BlockscoutCallInner.call call_type to input (CallResult.error e)) =
    TransactionTraceOutput.error (worded e)
output_said used (BlockscoutCallInner.create init (CreateResult.success address code)) =
    TransactionTraceOutput.result (TransactionTraceResult.create address code used)
output_said used (BlockscoutCallInner.create init (CreateResult.error e)) =
    TransactionTraceOutput.error (worded e)
output_said used (BlockscoutCallInner.self_destruct balance to) =
    TransactionTraceOutput.result TransactionTraceResult.suicide

-- The trace of an entry of the transaction with this position and hash.
abbrev pub expected_trace : H256 → ℕ → ℕ → H256 → BlockscoutCall → TransactionTrace
expected_trace eth_block_hash height position hash t = record {
  action = action_said t t.inner;
  block_hash = eth_block_hash;
  block_number = height;
  output = output_said t.gas_used t.inner;
  subtraces = t.subtraces;
  trace_address = t.trace_address;
  transaction_hash = hash;
  transaction_position = position;
}

-- The traces of the entries: each with the position and the hash of its own transaction.
abbrev pub expected :
    H256 → ℕ → ℕ → List H256 → List (BTreeMap BlockscoutCall) → List TransactionTrace
expected eth_block_hash height position [] ms = []
expected eth_block_hash height position (h ∷ hs) [] = []
expected eth_block_hash height position (h ∷ hs) (m ∷ ms) =
    map (λ e. expected_trace eth_block_hash height position h (e.1)) m
    ++ expected eth_block_hash height (suc position) hs ms

filled_lem :
    (b : H256) (height position : ℕ) (h : H256) (t : BlockscoutCall)
    → position % 2 ^ 32 ≡ position
    → filled b height h (format_entry position t) ≡ expected_trace b height position h t
unfolding format_entry reword
filled_lem b height position h t small = ground arith

get_elem?-append {ℓ} :
    {A : Type ℓ} (xs ys : List A) (y : A) → get_elem? (xs ++ y ∷ ys) (length xs) ≡ some y
get_elem?-append [] ys y = refl
get_elem?-append (x ∷ xs) ys y = get_elem?-append xs ys y

module _ (b : H256) (height : ℕ) (hashes : List H256) where
  fill_entries :
      (position : ℕ) (h : H256) (m : BTreeMap BlockscoutCall) (ts us : List TransactionTrace)
      → position % 2 ^ 32 ≡ position
      → get_elem? hashes position ≡ some h
      → fill b height hashes ts ≡ ok us
      → fill b height hashes (map (λ e. format_entry position (e.1)) m ++ ts)
        ≡ ok (map (λ e. expected_trace b height position h (e.1)) m ++ us)
  unfolding fill format_entry
  fill_entries position h [] ts us small at rest = rest
  fill_entries position h (e ∷ m) ts us small at rest =
      ap
        (λ k. ok_or (get_elem? hashes k) (unexpected_transaction height) >>= λ g.
          fill b height hashes (map (λ e. format_entry position (e.1)) m ++ ts) >>= λ later.
          ok (filled b height g (format_entry position (e.1)) ∷ later))
        small
      ∙ rw at (
          rw (fill_entries position h m ts us small at rest) (
            ap (λ x. ok (x ∷ (map (λ e. expected_trace b height position h (e.1)) m ++ us)))
              (filled_lem b height position h (e.1) small)))

fill_from :
    (b : H256) (height : ℕ) (before hashes : List H256) (ms : List (BTreeMap BlockscoutCall))
    → length hashes ≡ length ms
    → length before + length hashes ≤ 2 ^ 32
    → fill b height (before ++ hashes) (format_from (length before) ms)
      ≡ ok (expected b height (length before) hashes ms)
unfolding fill format_from
fill_from b height before [] [] e room = refl
fill_from b height before [] (m ∷ ms) e room = absurd (omega arith)
fill_from b height before (h ∷ hashes) [] e room = absurd (omega arith)
fill_from b height before (h ∷ hashes) (m ∷ ms) e room =
    let n : length (before ++ h ∷ []) ≡ suc (length before) =
      omega (arith, length-append before (h ∷ [])) in
    let small : length before % 2 ^ 32 ≡ length before = omega arith in
    let all = before ++ h ∷ hashes in
    fill_entries b height all (length before) h m (format_from (suc (length before)) ms)
      (expected b height (suc (length before)) hashes ms) small (get_elem?-append before hashes h)
      (subst (λ k. fill b height all (format_from k ms) ≡ ok (expected b height k hashes ms)) n
        (subst
          (λ xs.
            fill b height xs (format_from (length (before ++ h ∷ [])) ms)
            ≡ ok (expected b height (length (before ++ h ∷ [])) hashes ms))
          (append_assoc before (h ∷ []) hashes)
          (fill_from b height (before ++ h ∷ []) hashes ms (omega arith) (omega (arith, n)))))

retain_filled-block_entries :
    (n : ℕ) (ts : List Transaction) → retain_filled (block_entries n ts) ≡ block_entries n ts
unfolding retain_filled
retain_filled-block_entries n [] = refl
retain_filled-block_entries n (t ∷ ts) =
    ap (◌∷◌ (transaction_entries n t)) (retain_filled-block_entries (n + size (call_tree t)) ts)

length-block_entries : (n : ℕ) (ts : List Transaction) → length (block_entries n ts) ≡ length ts
length-block_entries n [] = refl
length-block_entries n (t ∷ ts) = ap suc (length-block_entries (n + size (call_tree t)) ts)

length-le-block_size : (ts : List Transaction) → length ts ≤ block_size ts
length-le-block_size [] = omega arith
length-le-block_size (t ∷ ts) = omega (arith, length-le-block_size ts)

format-block_events :
    (ts : List Transaction)
    → block_size ts < 2 ^ 32
    → format (events (block_events ts) default) ≡ some (format_from 0 (block_entries 0 ts))
unfolding format
format-block_events ts room =
    ap (λ ms. some (format_from 0 (retain_filled ms))) (block_entries_lem ts room)
    ∙ ap (λ ms. some (format_from 0 ms)) (retain_filled-block_entries 0 ts)

-- If the client has the block's header, its Ethereum block and its extrinsics, and the runtime
-- replays the block with success, emitting the events of the call trees of its transactions, one
-- for each transaction hash of the Ethereum block, then tracing the block gives the entries of the
-- trees in order, each with the block's hash and number, and with the position and the hash of its
-- own transaction. This holds for blocks with fewer than 2^32 contexts.
pub cache_block-block_events :
    {Extrinsic : Type 0} (chain : Chain Extrinsic) (substrate_hash : H256) (header : Header)
    (eth_block : H256) (hashes : List H256) (extrinsics : List Extrinsic) (ts : List Transaction)
    → chain.header substrate_hash ≡ ok (some header)
    → chain.schema substrate_hash
      ≡ some (record { current_block = some eth_block; current_transaction_statuses = some hashes })
    → chain.body substrate_hash ≡ ok (some extrinsics)
    → chain.initialize_block header.parent_hash header ≡ ok tt
    → chain.trace_block header.parent_hash extrinsics hashes ≡ (ok (ok tt), block_events ts)
    → length hashes ≡ length ts
    → block_size ts < 2 ^ 32
    → cache_block chain substrate_hash
      ≡ ok (expected eth_block header.number 0 hashes (block_entries 0 ts))
unfolding cache_block
cache_block-block_events chain substrate_hash header eth_block hashes extrinsics ts at_header
      at_schema at_body started replayed same_length room =
    rw (at_header, at_schema, at_body, cache_block)
      (rw (started, replayed)
        (rw (format-block_events ts room) (
          fill_from eth_block header.number [] hashes (block_entries 0 ts)
            (omega (arith, length-block_entries 0 ts)) (omega (arith, length-le-block_size ts)))))
