-- ===== src/ResolveQueue/Refine.antt =====
-- The ring against the list of the items in it, the oldest first.
use nvidia_vaapi_driver.Prelude.{
  ℕ, zero, suc, ◌+◌, ◌-◌, ◌%◌, ◌≤◌, ◌<◌, ◌≡◌, ◌≢◌, refl, sym, ap, ◌∙◌, Option, none, some, List, [],
  ◌∷◌, ◌++◌, map, ltb, if◌then◌else◌, length, take, arith, inl, inr, Bool-cases, tests,
  length-append,
}
use nvidia_vaapi_driver.ResolveQueue.{ResolveQueue, queue_capacity, store, drain, enqueue, dequeue}

-- The items from the index `i` on, round the ring.
unfoldable pub Window : (ℕ → Option ℕ) → ℕ → List ℕ → Type 0
Window items i [] = Unit
Window items i (x ∷ xs) = (items i ≡ some x) × Window items ((i + 1) % queue_capacity) xs

-- `q` holds the items `xs`.
pub record Holds (q : ResolveQueue) (xs : List ℕ) : Type 0 where
  pub counted : q.count ≡ length xs
  pub fits : q.count ≤ queue_capacity
  pub reading : q.read_idx < queue_capacity
  pub writing : q.write_idx ≡ (q.read_idx + q.count) % queue_capacity
  pub window : Window q.items q.read_idx xs

-- A write outside of the window does not change it.
Window-store :
    (items : ℕ → Option ℕ) (i k : ℕ) (xs : List ℕ) (v : Option ℕ)
    → i < queue_capacity
    → k < queue_capacity
    → ((j : ℕ) → j < length xs → (i + j) % queue_capacity ≢ k)
    → Window items i xs
    → Window (store items k v) i xs
unfolding Window
Window-store items i k [] v hi hk h w = tt
Window-store items i k (x ∷ xs) v hi hk h w =
    let apart : i ≢ k = λ e. h 0 (omega arith) (omega arith) in
    (
      ground (arith, w.0, apart),
      Window-store items ((i + 1) % queue_capacity) k xs v (omega arith) hk
          (λ j hj e. h (suc j) (omega arith) (omega arith)) w.1,
    )

Window-append :
    (items : ℕ → Option ℕ) (i : ℕ) (xs : List ℕ) (x : ℕ)
    → i < queue_capacity
    → Window items i xs
    → items ((i + length xs) % queue_capacity) ≡ some x
    → Window items i (xs ++ x ∷ [])
unfolding Window
Window-append items i [] x hi w e =
    let here : (i + 0) % queue_capacity ≡ i = omega arith in (ap items (sym here) ∙ e, tt)
Window-append items i (y ∷ ys) x hi w e =
    let next : ((i + 1) % queue_capacity + length ys) % queue_capacity
        ≡ (i + suc (length ys)) % queue_capacity =
      omega arith in
    (w.0, Window-append items ((i + 1) % queue_capacity) ys x (omega arith) w.1 (ap items next ∙ e))

pub enqueue-Holds :
    (q : ResolveQueue) (xs : List ℕ) (item : ℕ)
    → Holds q xs
    → q.count < queue_capacity
    → Holds (enqueue q item) (xs ++ item ∷ [])
enqueue-Holds q xs item h room =
    let counted = h.counted in
    let reading = h.reading in
    let writing = h.writing in
    let apart : (j : ℕ) → j < length xs → (q.read_idx + j) % queue_capacity ≢ q.write_idx =
      λ j hj e. omega arith in
    let place : (q.read_idx + length xs) % queue_capacity ≡ q.write_idx = omega arith in
    record {
      counted = omega (arith, length-append xs (item ∷ []));
      fits = omega arith;
      reading = reading;
      writing = omega arith;
      window =
          Window-append (store q.items q.write_idx (some item)) q.read_idx xs item reading
            (Window-store q.items q.read_idx q.write_idx xs (some item) reading (omega arith) apart
              h.window)
            (ground (arith, place));
    }

pub Window-dequeue :
    (q : ResolveQueue) (x : ℕ) (xs : List ℕ)
    → q.read_idx < queue_capacity
    → length xs < queue_capacity
    → Window q.items q.read_idx (x ∷ xs)
    → Window (dequeue q).items (dequeue q).read_idx xs
unfolding Window
Window-dequeue q x xs reading few w =
    Window-store q.items ((q.read_idx + 1) % queue_capacity) q.read_idx xs none (omega arith)
      reading (λ j hj e. omega arith) w.1

take_nil : (n : ℕ) → take {A = ℕ} n [] ≡ []
take_nil zero = refl
take_nil (suc n) = refl

listed_lem :
    (returned i x : ℕ) (xs : List ℕ) (item : Option ℕ) (later : List (Option ℕ))
    → item ≡ some x
    → later ≡ map some (take (returned - (i + 1)) xs)
    → (if ltb i returned then item ∷ later else later) ≡ map some (take (returned - i) (x ∷ xs))
listed_lem returned i x xs item later e h = elim (Bool-cases (ltb i returned)) [
  | inl t ↦ let step : returned - i ≡ suc (returned - (i + 1)) = omega tests in rw (t, step, e, h)
  | inr f ↦
      let none_left : returned - i ≡ 0 = ground arith in
      let none_later : returned - (i + 1) ≡ 0 = omega arith in rw (f, none_left, h, none_later)
]

-- What the loop of resolveQueueCancel leaves.
pub record Drained (returned i : ℕ) (q : ResolveQueue) (xs : List ℕ)
    (r : List (Option ℕ) × ResolveQueue) : Type 0 where
  pub listed : r.0 ≡ map some (take (returned - i) xs)
  pub ended : r.1.read_idx < queue_capacity
  pub still_closed : r.1.exiting ≡ q.exiting
  pub still_initialized : r.1.initialized ≡ q.initialized

pub drain-Drained :
    (xs : List ℕ) (returned i : ℕ) (q : ResolveQueue)
    → q.read_idx < queue_capacity
    → length xs ≤ queue_capacity
    → Window q.items q.read_idx xs
    → Drained returned i q xs (drain (length xs) i returned q)
unfolding drain
drain-Drained [] returned i q reading few w = record {
  listed = rw (take_nil (returned - i));
  ended = reading;
  still_closed = refl;
  still_initialized = refl;
}
drain-Drained (x ∷ xs) returned i q reading few w =
    let first : q.items q.read_idx ≡ some x = (unfold Window in w.0) in
    let rest =
      drain-Drained xs returned (i + 1) (dequeue q) (omega arith) (omega arith)
        (Window-dequeue q x xs reading (omega arith) w) in
    record {
      listed = listed_lem returned i x xs (q.items q.read_idx) _ first rest.listed;
      ended = rest.ended;
      still_closed = rest.still_closed;
      still_initialized = rest.still_initialized;
    }
