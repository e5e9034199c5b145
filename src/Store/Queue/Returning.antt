-- ===== src/Store/Queue/Returning.antt =====
-- The rows that UPDATE … RETURNING gives back: what holds of them, and how many there are.
use xeron_mx.Prelude.{
  ℕ, ◌+◌, map, ◌≤◌, ◌≡◌, refl, Bool, true, false, ◌||◌, List, [], ◌∷◌, arith, ◌==◌, Bool-cases, inl,
  inr, any, select, count, length, All,
}
use xeron_mx.Store.Types.{Message}
use xeron_mx.Store.Queue.{has_id, update_where, is_among}
use xeron_mx.Store.Queue.Rows.{IsUnique}

pub All-zip {κ λ'} :
    (P : Message → Type κ) (Q : Message → Type λ') (q : List Message)
    → All P q
    → All Q q
    → All (λ m. P m × Q m) q
All-zip P Q [] h k = tt
All-zip P Q (m ∷ q) (p, h) (r, k) = ((p, r), All-zip P Q q h k)

pub All-map {κ λ'} :
    (P : Message → Type κ) (Q : Message → Type λ') (q : List Message)
    → ((m : Message) → P m → Q m)
    → All P q
    → All Q q
All-map P Q [] f h = tt
All-map P Q (m ∷ q) f (p, h) = (f m p, All-map P Q q f h)

-- Of the rows that an UPDATE … RETURNING touches, by a test on the id, the new values come back.
pub select-update_where :
    (s : Message → Bool) (f : Message → Message)
    → ((m : Message) → s (f m) ≡ s m)
    → (q : List Message) → select s (update_where s f q) ≡ map f (select s q)
unfolding select update_where
select-update_where s f same [] = refl
select-update_where s f same (m ∷ q) = ground (arith, same m, select-update_where s f same q)

pub All-of_map {κ} :
    (P : Message → Type κ) (f : Message → Message) (q : List Message)
    → All (λ m. P (f m)) q
    → All P (map f q)
All-of_map P f [] h = tt
All-of_map P f (m ∷ q) (p, h) = (p, All-of_map P f q h)

pub All-select_where {κ λ'} :
    (P : Message → Type κ) (R : Message → Type λ') (s : Message → Bool) (q : List Message)
    → ((m : Message) → R m → s m ≡ true → P m)
    → All R q
    → All P (select s q)
unfolding select
All-select_where P R s [] f h = tt
All-select_where P R s (m ∷ q) f (r, h) = elim (Bool-cases (s m)) [
  | inl e ↦ rw e (f m r e, All-select_where P R s q f h)
  | inr e ↦ rw e (All-select_where P R s q f h)
]

pub length-select : (s : Message → Bool) (q : List Message) → length (select s q) ≡ count s q
unfolding select count
length-select s [] = refl
length-select s (m ∷ q) = ground (arith, length-select s q)

count-zero : (k : ℕ) (q : List Message) → any (has_id k) q ≡ false → count (λ m. k == m.id) q ≡ 0
unfolding any count
count-zero k [] h = refl
count-zero k (m ∷ q) h = ground (arith, count-zero k q)

count-id : (k : ℕ) (q : List Message) → IsUnique q → count (λ m. k == m.id) q ≤ 1
unfolding count
count-id k [] u = omega arith
count-id k (m ∷ q) (fresh, u) = elim (Bool-cases (k == m.id)) [
  | inl e ↦
      rw e (let same : m.id ≡ k = ground arith in omega (arith, count-zero k q (rw same at fresh)))
  | inr e ↦ rw e (omega (arith, count-id k q u))
]

count-or :
    (a b : Message → Bool) (q : List Message) → count (λ m. a m || b m) q ≤ count a q + count b q
unfolding count
count-or a b [] = omega arith
count-or a b (m ∷ q) = ground (arith, count-or a b q)

count-false : (q : List Message) → count (λ m. false) q ≡ 0
unfolding count
count-false [] = refl
count-false (m ∷ q) = omega (arith, count-false q)

-- Where ids are unique, no more rows match a list of ids than the list is long.
pub count-is_among : (rows q : List Message) → IsUnique q → count (is_among rows) q ≤ length rows
unfolding is_among any
count-is_among [] q u = omega (arith, count-false q)
count-is_among (c ∷ rows) q u = omega (
  arith,
  count-id c.id q u,
  count-or (λ m. c.id == m.id) (is_among rows) q,
  count-is_among rows q u,
)
