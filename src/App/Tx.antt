-- ===== src/App/Tx.antt =====
-- client/app/prouter.go, `validateTx`: what a decoded transaction of the Cosmos SDK may hold.
use story.Base.{
  ℕ, ◌≡◌, ◌≢◌, ◌↔◌, Bool, true, false, not, Option, none, some, List, [], ◌∷◌, ◌==◌, ◌||◌,
  if◌then◌else◌, arith,
}
use story.Action.{Outcome, ok, err, panic, Done}
use story.Engine.Types.{MsgExecutionPayload}

-- A message, by its type: the engine's payload, or one of another type.
pub data Msg : Type 0 where
  execution_payload : MsgExecutionPayload → Msg
  other : Msg

-- What the interfaces of a decoded transaction answer. `none` is an interface that it does not have,
-- or a nil pointer.
pub record ProtoTx : Type 0 where
  pub signatures : ℕ
  -- whether the fee of `AuthInfo` is there
  pub auth_info : Option Bool

pub record StandardTx : Type 0 where
  pub signatures_v2 : Outcome ℕ
  pub memo_length : ℕ
  pub has_fee : Bool
  pub fee_payer : List ℕ
  pub has_fee_granter : Bool

pub record Tx : Type 0 where
  pub proto_tx : Option ProtoTx
  pub standard_tx : Option StandardTx
  -- whether the transaction can have a tip, and has one
  pub tip_tx : Option Bool
  pub msgs : List Msg

abbrev pub same_bytes : List ℕ → List ℕ → Bool
same_bytes [] [] = true
same_bytes (a ∷ xs) (b ∷ ys) = if a == b then same_bytes xs ys else false
same_bytes _ _ = false

abbrev pub check_tip : Option Bool → Outcome Done
check_tip none = ok tt
check_tip (some has_tip) = if has_tip then err [] else ok tt

-- The checks from the fee on
unfoldable pub validate_fee : List ℕ → Bool → StandardTx → Option Bool → Outcome Done
validate_fee module_account fee std tip =
    if not fee || std.has_fee
    then err []
    else if not (same_bytes std.fee_payer module_account)
    then err []
    else if std.has_fee_granter
    then err []
    else check_tip tip

unfoldable pub validate_standard : List ℕ → ProtoTx → StandardTx → Option Bool → Outcome Done
unfolding validate_fee
validate_standard module_account proto std tip = elim std.signatures_v2 [
  | err e ↦ err e
  | panic ↦ panic
  | ok n ↦
      if not (n == 0)
      then err []
      else if not (std.memo_length == 0)
      then err []
      else elim proto.auth_info [
        | none ↦ panic
        | some fee ↦ validate_fee module_account fee std tip
      ]
]

unfoldable pub validate_tx : List ℕ → Tx → Outcome Done
unfolding validate_standard
validate_tx module_account tx = elim tx.proto_tx [
  | none ↦ err []
  | some proto ↦ if not (proto.signatures == 0) then err [] else elim tx.standard_tx [
    | none ↦ err []
    | some std ↦ validate_standard module_account proto std tx.tip_tx
  ]
]

-- What a transaction may carry besides its messages: no signature in either form, no memo, an empty
-- fee that the engine's module pays, nobody who grants it, and no tip.
pub record IsBare (module_account : List ℕ) (proto : ProtoTx) (std : StandardTx) (tip : Option Bool)
    : Type 0 where
  pub unsigned : proto.signatures ≡ 0
  pub unsigned_v2 : std.signatures_v2 ≡ ok 0
  pub no_memo : std.memo_length ≡ 0
  pub fee_there : proto.auth_info ≡ some true
  pub fee_empty : std.has_fee ≡ false
  pub payer : std.fee_payer ≡ module_account
  pub no_granter : std.has_fee_granter ≡ false
  pub untipped : tip ≢ some true

same_bytes_iff : (xs ys : List ℕ) → (same_bytes xs ys ≡ true) ↔ (xs ≡ ys)
same_bytes_iff [] [] = ground arith
same_bytes_iff [] (y ∷ ys) = ground arith
same_bytes_iff (x ∷ xs) [] = ground arith
same_bytes_iff (x ∷ xs) (y ∷ ys) = ground (arith, same_bytes_iff xs ys)

check_tip_iff : (o : Option Bool) → (check_tip o ≡ ok tt) ↔ (o ≢ some true)
check_tip_iff none = ground arith
check_tip_iff (some true) = ground arith
check_tip_iff (some false) = ground arith

module _ (module_account : List ℕ) (proto : ProtoTx) (std : StandardTx) (tip : Option Bool) where
  validate_standard_iff :
      proto.signatures ≡ 0
      → (validate_standard module_account proto std tip ≡ ok tt)
        ↔ IsBare module_account proto std tip
  unfolding validate_standard validate_fee
  validate_standard_iff h =
      ground (arith, same_bytes_iff std.fee_payer module_account, check_tip_iff tip)

-- A transaction that both interfaces show passes exactly when it is bare.
pub validate_tx_iff :
    (module_account : List ℕ) (tx : Tx) (proto : ProtoTx) (std : StandardTx)
    → tx.proto_tx ≡ some proto
    → tx.standard_tx ≡ some std
    → (validate_tx module_account tx ≡ ok tt) ↔ IsBare module_account proto std tx.tip_tx
unfolding validate_tx
validate_tx_iff module_account tx proto std e f =
    rw (e, f) (ground (arith, validate_standard_iff module_account proto std tx.tip_tx))
