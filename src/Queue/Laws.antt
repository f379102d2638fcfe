-- ===== src/Queue/Laws.antt =====
-- Each operation of the queue against its view as a list.
use story.Base.{
  ℕ, suc, ◌+◌, ◌-◌, ◌%◌, ◌≤◌, ◌<◌, ◌≡◌, refl, false, none, some, List, [], ◌∷◌, ◌++◌, arith, length,
  length-append, get_elem?, u64_mod, ltb, ◌==◌, if◌then◌else◌, ap, ◌∙◌, Bool-cases, ltb→lt, inl,
  inr, get_elem?-none, get_elem?-lt,
}
use story.Errors.{cause, empty_queue, out_of_bounds_queue, not_found}
use story.Action.{ok, err}
use story.Queue.{Queue, update, enqueue, len, is_empty, dequeue, get, peek}
use story.Queue.Represents.{Represents, slot_front, slot_rest, slot_append, slot_end}

module _ {T : Type 0} where
  enqueue_lem :
      (q : Queue T) (x : T) (r : ℕ)
      → q.rear ≡ some r
      → r + 1 < u64_mod
      → enqueue x q
        ≡ (ok tt, record q { rear = some (r + 1); elements = update q.elements r (some x) })
  unfolding enqueue
  enqueue_lem q x r e h = let small : (r + 1) % u64_mod ≡ r + 1 = omega arith in rw (e, small)

  -- `Enqueue` succeeds and puts the entry at the end, as long as the rear counter does not reach its
  -- last value.
  pub enqueue-Represents :
      (q : Queue T) (f : ℕ) (xs : List T) (x : T)
      → Represents q f xs
      → f + length xs + 1 < u64_mod
      → ((enqueue x q).0 ≡ ok tt) × Represents (enqueue x q).1 f (xs ++ x ∷ [])
  enqueue-Represents q f xs x r room = rw (enqueue_lem q x (f + length xs) r.rear_eq room) (
    refl,
    record {
      front_eq = r.front_eq;
      rear_eq = ap some (omega (arith, length-append xs (x ∷ [])));
      fits = omega (arith, length-append xs (x ∷ []));
      elems = λ i. ground (arith, slot_append f xs x i, slot_end f xs x, r.elems i);
    },
  )

  pub len-Represents : (q : Queue T) (f : ℕ) (xs : List T) → Represents q f xs → len q ≡ length xs
  unfolding len
  len-Represents q f xs r = let fits = r.fits in rw (r.front_eq, r.rear_eq) (omega arith)

  pub is_empty-Represents :
      (q : Queue T) (f : ℕ) (xs : List T) → Represents q f xs → is_empty q ≡ (length xs == 0)
  unfolding is_empty
  is_empty-Represents q f xs r = rw (len-Represents q f xs r)

  -- On an empty queue `Dequeue` fails with `ErrEmptyQueue` and changes nothing.
  pub dequeue_empty :
      (q : Queue T) (f : ℕ) → Represents q f [] → dequeue q ≡ (err (cause empty_queue ∷ []), q)
  unfolding dequeue
  dequeue_empty q f r = rw (is_empty-Represents q f [] r)

  dequeue_lem :
      (q : Queue T) (f : ℕ) (x : T)
      → is_empty q ≡ false
      → q.front ≡ some f
      → q.elements f ≡ some x
      → f + 1 < u64_mod
      → dequeue q ≡ (ok x, record q { front = some (f + 1); elements = update q.elements f none })
  unfolding dequeue
  dequeue_lem q f x e ef ex h = ground arith

  -- On a queue with entries `Dequeue` returns the oldest, and the others stay, from the next number on.
  pub dequeue-Represents :
      (q : Queue T) (f : ℕ) (x : T) (xs : List T)
      → Represents q f (x ∷ xs)
      → ((dequeue q).0 ≡ ok x) × Represents (dequeue q).1 (suc f) xs
  dequeue-Represents q f x xs r =
      let fits = r.fits in
      rw
        (dequeue_lem q f x (ground (arith, is_empty-Represents q f (x ∷ xs) r)) r.front_eq
          (r.elems f ∙ slot_front f x xs) (omega arith))
        (
          refl,
          record {
            front_eq = ap some (omega arith);
            rear_eq = r.rear_eq ∙ ap some (omega arith);
            fits = omega arith;
            elems = λ i. ground (arith, slot_rest f i x xs, r.elems i);
          },
        )

  -- `Get` reads an index from the front. Outside the queue it fails: with `ErrOutOfBoundsQueue`, or,
  -- where the sum of front and index wraps, with the `ErrNotFound` of the map.
  pub get-Represents :
      (q : Queue T) (f : ℕ) (xs : List T) (i : ℕ)
      → Represents q f xs
      → i < u64_mod
      → get q i ≡ elim (get_elem? xs i) [
        | none ↦ err (cause (if ltb (f + i) u64_mod then out_of_bounds_queue else not_found) ∷ [])
        | some x ↦ ok x
      ]
  unfolding get
  get-Represents q f xs i r h = elim (Bool-cases (ltb (f + i) u64_mod)) [
    | inl e ↦
        let below : f + i < u64_mod = ltb→lt _ _ e in
        let at : (f + i) % u64_mod ≡ f + i = omega arith in
        rw (r.front_eq, r.rear_eq, at, r.elems (f + i))
          (let back : f + i - f ≡ i = omega arith in
            rw back (ground (arith, get_elem?-none xs i, get_elem?-lt xs i)))
    | inr e ↦
        let fits = r.fits in
        let above : u64_mod ≤ f + i = ground arith in
        let at : (f + i) % u64_mod ≡ f + i - u64_mod = omega arith in
        let none_there = get_elem?-none xs i (omega arith) in
        rw (r.front_eq, r.rear_eq, at, none_there, r.elems (f + i - u64_mod)) (ground arith)
  ]

  -- `Peek` reads what `Dequeue` would take, and leaves the queue as it is.
  pub peek-dequeue :
      (q : Queue T) (f : ℕ) (xs : List T) → Represents q f xs → peek q ≡ (dequeue q).0
  unfolding peek dequeue
  peek-dequeue q f xs r = ground (arith, r.front_eq)
