-- ===== src/Tracing/Opcodes.antt =====
-- primitives/rpc/evm-tracing-events/src/runtime.rs, `opcodes_string`: the names under which the
-- runtime reports the opcodes, bytes, in its events.
pub mod Contexts
use edgeware_node.Prelude.{
  ℕ, ◌+◌, ◌/◌, ◌%◌, List, [], ◌∷◌, ◌++◌, Option, none, some, ltb, ◌==◌, if◌then◌else◌,
}
use edgeware_node.Prelude.Text.{Bytes, bytes}

-- The rows of the `match`.
unfoldable pub names : List (ℕ × Bytes)
names =
    (0, bytes "Stop")
    ∷ (1, bytes "Add")
    ∷ (2, bytes "Mul")
    ∷ (3, bytes "Sub")
    ∷ (4, bytes "Div")
    ∷ (5, bytes "SDiv")
    ∷ (6, bytes "Mod")
    ∷ (7, bytes "SMod")
    ∷ (8, bytes "AddMod")
    ∷ (9, bytes "MulMod")
    ∷ (10, bytes "Exp")
    ∷ (11, bytes "SignExtend")
    ∷ (16, bytes "Lt")
    ∷ (17, bytes "Gt")
    ∷ (18, bytes "Slt")
    ∷ (19, bytes "Sgt")
    ∷ (20, bytes "Eq")
    ∷ (21, bytes "IsZero")
    ∷ (22, bytes "And")
    ∷ (23, bytes "Or")
    ∷ (24, bytes "Xor")
    ∷ (25, bytes "Not")
    ∷ (26, bytes "Byte")
    ∷ (27, bytes "Shl")
    ∷ (28, bytes "Shr")
    ∷ (29, bytes "Sar")
    ∷ (32, bytes "Keccak256")
    ∷ (48, bytes "Address")
    ∷ (49, bytes "Balance")
    ∷ (50, bytes "Origin")
    ∷ (51, bytes "Caller")
    ∷ (52, bytes "CallValue")
    ∷ (53, bytes "CallDataLoad")
    ∷ (54, bytes "CallDataSize")
    ∷ (55, bytes "CallDataCopy")
    ∷ (56, bytes "CodeSize")
    ∷ (57, bytes "CodeCopy")
    ∷ (58, bytes "GasPrice")
    ∷ (59, bytes "ExtCodeSize")
    ∷ (60, bytes "ExtCodeCopy")
    ∷ (61, bytes "ReturnDataSize")
    ∷ (62, bytes "ReturnDataCopy")
    ∷ (63, bytes "ExtCodeHash")
    ∷ (64, bytes "BlockHash")
    ∷ (65, bytes "Coinbase")
    ∷ (66, bytes "Timestamp")
    ∷ (67, bytes "Number")
    ∷ (68, bytes "Difficulty")
    ∷ (69, bytes "GasLimit")
    ∷ (70, bytes "ChainId")
    ∷ (80, bytes "Pop")
    ∷ (81, bytes "MLoad")
    ∷ (82, bytes "MStore")
    ∷ (83, bytes "MStore8")
    ∷ (84, bytes "SLoad")
    ∷ (85, bytes "SStore")
    ∷ (86, bytes "Jump")
    ∷ (87, bytes "JumpI")
    ∷ (88, bytes "GetPc")
    ∷ (89, bytes "MSize")
    ∷ (90, bytes "Gas")
    ∷ (91, bytes "JumpDest")
    ∷ (96, bytes "Push1")
    ∷ (97, bytes "Push2")
    ∷ (98, bytes "Push3")
    ∷ (99, bytes "Push4")
    ∷ (100, bytes "Push5")
    ∷ (101, bytes "Push6")
    ∷ (102, bytes "Push7")
    ∷ (103, bytes "Push8")
    ∷ (104, bytes "Push9")
    ∷ (105, bytes "Push10")
    ∷ (106, bytes "Push11")
    ∷ (107, bytes "Push12")
    ∷ (108, bytes "Push13")
    ∷ (109, bytes "Push14")
    ∷ (110, bytes "Push15")
    ∷ (111, bytes "Push16")
    ∷ (112, bytes "Push17")
    ∷ (113, bytes "Push18")
    ∷ (114, bytes "Push19")
    ∷ (115, bytes "Push20")
    ∷ (116, bytes "Push21")
    ∷ (117, bytes "Push22")
    ∷ (118, bytes "Push23")
    ∷ (119, bytes "Push24")
    ∷ (120, bytes "Push25")
    ∷ (121, bytes "Push26")
    ∷ (122, bytes "Push27")
    ∷ (123, bytes "Push28")
    ∷ (124, bytes "Push29")
    ∷ (125, bytes "Push30")
    ∷ (126, bytes "Push31")
    ∷ (127, bytes "Push32")
    ∷ (128, bytes "Dup1")
    ∷ (129, bytes "Dup2")
    ∷ (130, bytes "Dup3")
    ∷ (131, bytes "Dup4")
    ∷ (132, bytes "Dup5")
    ∷ (133, bytes "Dup6")
    ∷ (134, bytes "Dup7")
    ∷ (135, bytes "Dup8")
    ∷ (136, bytes "Dup9")
    ∷ (137, bytes "Dup10")
    ∷ (138, bytes "Dup11")
    ∷ (139, bytes "Dup12")
    ∷ (140, bytes "Dup13")
    ∷ (141, bytes "Dup14")
    ∷ (142, bytes "Dup15")
    ∷ (143, bytes "Dup16")
    ∷ (144, bytes "Swap1")
    ∷ (145, bytes "Swap2")
    ∷ (146, bytes "Swap3")
    ∷ (147, bytes "Swap4")
    ∷ (148, bytes "Swap5")
    ∷ (149, bytes "Swap6")
    ∷ (150, bytes "Swap7")
    ∷ (151, bytes "Swap8")
    ∷ (152, bytes "Swap9")
    ∷ (153, bytes "Swap10")
    ∷ (154, bytes "Swap11")
    ∷ (155, bytes "Swap12")
    ∷ (156, bytes "Swap13")
    ∷ (157, bytes "Swap14")
    ∷ (158, bytes "Swap15")
    ∷ (159, bytes "Swap16")
    ∷ (160, bytes "Log0")
    ∷ (161, bytes "Log1")
    ∷ (162, bytes "Log2")
    ∷ (163, bytes "Log3")
    ∷ (164, bytes "Log4")
    ∷ (176, bytes "JumpTo")
    ∷ (177, bytes "JumpIf")
    ∷ (178, bytes "JumpSub")
    ∷ (180, bytes "JumpSubv")
    ∷ (181, bytes "BeginSub")
    ∷ (182, bytes "BeginData")
    ∷ (184, bytes "ReturnSub")
    ∷ (185, bytes "PutLocal")
    ∷ (186, bytes "GetLocal")
    ∷ (225, bytes "SLoadBytes")
    ∷ (226, bytes "SStoreBytes")
    ∷ (227, bytes "SSize")
    ∷ (240, bytes "Create")
    ∷ (241, bytes "Call")
    ∷ (242, bytes "CallCode")
    ∷ (243, bytes "Return")
    ∷ (244, bytes "DelegateCall")
    ∷ (245, bytes "Create2")
    ∷ (250, bytes "StaticCall")
    ∷ (252, bytes "TxExecGas")
    ∷ (253, bytes "Revert")
    ∷ (254, bytes "Invalid")
    ∷ (255, bytes "SelfDestruct")
    ∷ []

unfoldable pub name_of : List (ℕ × Bytes) → ℕ → Option Bytes
name_of [] n = none
name_of ((k, name) ∷ rest) n = if k == n then some name else name_of rest n

-- A byte in decimal.
unfoldable pub decimal : ℕ → Bytes
decimal n =
    if ltb n 10
    then (n + b'0') ∷ []
    else if ltb n 100
    then (n / 10 + b'0') ∷ (n % 10 + b'0') ∷ []
    else (n / 100 + b'0') ∷ (n / 10 % 10 + b'0') ∷ (n % 10 + b'0') ∷ []

name_or_unknown : ℕ → Option Bytes → Bytes
name_or_unknown n (some name) = name
name_or_unknown n none = bytes "Unknown(" ++ (decimal n ++ bytes ")")

unfoldable pub opcodes_string : ℕ → Bytes
unfolding name_or_unknown
opcodes_string n = name_or_unknown n (name_of names n)
