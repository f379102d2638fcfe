-- ===== src/Tests/Mint.antt =====
-- The mint module over a bank that counts two balances.
use story.Base.{
  ℕ, ◌+◌, ◌-◌, ◌/◌, ◌≡◌, ◌⊎◌, refl, true, false, ltb, some, [], ◌∷◌, if◌then◌else◌, arith,
}
use story.Action.{Outcome, ok, err, Action, Done}
use story.Mint.Params.{Decimals, Params, default_inflation_calculation}
use story.Mint.Begin.{
  Keepers, State, begin_blocker, before_singularity, mint_block, get_params, minted_coin,
  mint_coins, add_collected_fees,
}
use story.Mint.Begin.Balances.{Ledger, Minted, begin_blocker-Minted}

-- The balances of the module and of the fee collector
pub record Bank : Type 0 where
  pub module_balance : ℕ
  pub fee_balance : ℕ

abbrev whole : Decimals
whole = record {
  LegacyDec = ℕ;
  is_nil = λ _. false;
  is_negative = λ _. false;
  new_dec = λ n. n;
  quo = λ a b. ok (a / b);
  new_coin = λ _ n. ok n;
  trim_space = λ s. s;
  validate_denom = λ _. ok tt;
  default_bond_denom = "stake";
}

abbrev send : ℕ → Action Bank Done
send n b =
    if ltb b.module_balance n
    then (err [], b)
    else (ok tt, record { module_balance = b.module_balance - n; fee_balance = b.fee_balance + n })

abbrev keepers : Keepers Bank
keepers = record {
  singularity_height = λ _. ok 50;
  bank_mint_coins = λ _ n b. (ok tt, record b { module_balance = b.module_balance + n });
  send_to_fee_collector = λ _ n. send n;
  get_module_account = λ b. (ok tt, b);
}

send_moves :
    (n : ℕ) (x y : Bank)
    → send n x ≡ (ok tt, y)
    → (y.module_balance + n ≡ x.module_balance) × (y.fee_balance ≡ x.fee_balance + n)
send_moves n x y h = ground arith

mint_adds :
    (n : ℕ) (x y : Bank)
    → ◌≡◌ {A = Outcome Done × Bank}
        (ok tt, record x { module_balance = x.module_balance + n })
        (ok tt, y)
    → (y.module_balance ≡ x.module_balance + n) × (y.fee_balance ≡ x.fee_balance)
mint_adds n x y h = ground arith

abbrev ledger : Ledger keepers
ledger = record {
  module_balance = λ b _. b.module_balance;
  fee_balance = λ b _. b.fee_balance;
  mint_adds = λ _ n x y h. mint_adds n x y h;
  send_moves = λ _ n x y h. send_moves n x y h;
}

abbrev params : Params whole
params = record { mint_denom = "stake"; inflations_per_year = 100; blocks_per_year = 7 }

abbrev before : State whole Bank
before = record {
  params = some params;
  events = [];
  ext = record { module_balance = 3; fee_balance = 4 };
}

abbrev after : State whole Bank
after = record {
  params = some params;
  events = record { amount = 14 } ∷ [];
  ext = record { module_balance = 3; fee_balance = 18 };
}

begin_blocker-Minted_example :
    (height : ℕ) × (keepers.singularity_height before.ext ≡ ok height)
    × (((before_singularity 100 height ≡ true) × (after ≡ before))
        ⊎ ((before_singularity 100 height ≡ false) × Minted whole keepers ledger before after))
unfolding begin_blocker mint_block get_params minted_coin default_inflation_calculation mint_coins
    add_collected_fees
begin_blocker-Minted_example = begin_blocker-Minted whole keepers ledger 100 before after refl
