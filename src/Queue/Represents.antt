-- ===== src/Queue/Represents.antt =====
-- The abstract view of a queue: a list of entries, numbered from the front counter on.
use story.Base.{
  ℕ, suc, ◌+◌, ◌-◌, ◌≤◌, ◌<◌, ◌≡◌, ◌≢◌, subst, Option, none, some, List, [], ◌∷◌, ◌++◌, arith, ltb,
  if◌then◌else◌, length, get_elem?, length-append, get_elem?-append, get_elem?-append_left,
  get_elem?-none, u64_mod,
}
use story.Queue.{Queue}

module _ {T : Type 0} where
  -- What key `i` holds when the entries `xs` are stored from key `f` on.
  abbrev pub slot : ℕ → List T → ℕ → Option T
  slot f xs i = if ltb i f then none else get_elem? xs (i - f)

  -- The counters enclose the entries, and the map holds nothing else.
  pub record Represents (q : Queue T) (f : ℕ) (xs : List T) : Type 0 where
    pub front_eq : q.front ≡ some f
    pub rear_eq : q.rear ≡ some (f + length xs)
    pub fits : f + length xs < u64_mod
    pub elems : (i : ℕ) → q.elements i ≡ slot f xs i

  pub slot_front : (f : ℕ) (x : T) (xs : List T) → slot f (x ∷ xs) f ≡ some x
  slot_front f x xs = let e : f - f ≡ 0 = omega arith in rw e (ground arith)

  -- Past the front the rest starts one key later.
  pub slot_rest : (f i : ℕ) (x : T) (xs : List T) → i ≢ f → slot f (x ∷ xs) i ≡ slot (suc f) xs i
  slot_rest f i x xs ne = ground arith

  pub slot_append :
      (f : ℕ) (xs : List T) (x : T) (i : ℕ)
      → i ≢ f + length xs
      → slot f (xs ++ x ∷ []) i ≡ slot f xs i
  slot_append f xs x i ne = ground (
    arith,
    get_elem?-append_left xs (x ∷ []) (i - f),
    get_elem?-none xs (i - f),
    get_elem?-none (xs ++ x ∷ []) (i - f),
    length-append xs (x ∷ []),
  )

  pub slot_end : (f : ℕ) (xs : List T) (x : T) → slot f (xs ++ x ∷ []) (f + length xs) ≡ some x
  slot_end f xs x = ground (arith, get_elem?-append xs x (f + length xs - f))

  pub slot_outside : (f : ℕ) (xs : List T) (i : ℕ) → f + length xs ≤ i → slot f xs i ≡ none
  slot_outside f xs i h = ground (arith, get_elem?-none xs (i - f))

  pub Represents-at :
      {q : Queue T} {f g : ℕ} {xs : List T} → f ≡ g → Represents q f xs → Represents q g xs
  Represents-at {q} {xs = xs} e r = subst (λ k. Represents q k xs) e r
