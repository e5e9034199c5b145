-- ===== src/Store/Queue/Rows.antt =====
-- What one UPDATE, DELETE or SELECT does to the rows of the queue: lemmas on `update_where`, on
-- `select` and on the lookup by id that the proofs about the statements share.
use mathlib.Core.Option
use xeron_mx.Prelude.{
  ℕ, ◌≡◌, refl, ◌∙◌, ap, Bool, true, false, ◌||◌, none, some, List, [], ◌∷◌, ◌++◌, arith, ◌==◌,
  if◌then◌else◌, Bool-cases, inl, inr, select, any, find, All,
}
use xeron_mx.Store.Types.{Message}
use xeron_mx.Store.Queue.{has_id, update_where, is_among, exec_update}

-- The id is a primary key.
abbrev pub IsUnique : List Message → Type 0
IsUnique [] = Unit
IsUnique (m ∷ q) = (any (has_id m.id) q ≡ false) × IsUnique q

abbrev pub KeepsId : (Message → Message) → Type 0
KeepsId f = (m : Message) → (f m).id ≡ m.id

abbrev pub apply_if : (Message → Bool) → (Message → Message) → Message → Message
apply_if p f m = if p m then f m else m

module _ (p : Message → Bool) (f : Message → Message) where
  pub All-update_where {κ} :
      (P : Message → Type κ)
      → ((m : Message) → p m ≡ true → P m → P (f m))
      → (q : List Message) → All P q
      → All P (update_where p f q)
  unfolding update_where
  All-update_where P keep [] h = tt
  All-update_where P keep (m ∷ q) (pm, h) = elim (Bool-cases (p m)) [
    | inl e ↦ rw e (keep m e pm, All-update_where P keep q h)
    | inr e ↦ rw e (pm, All-update_where P keep q h)
  ]

  pub any-update_where :
      KeepsId f
      → (k : ℕ) (q : List Message) → any (has_id k) (update_where p f q) ≡ any (has_id k) q
  unfolding update_where any
  any-update_where same k [] = refl
  any-update_where same k (m ∷ q) = ground (arith, same m, any-update_where same k q)

  pub IsUnique-update_where :
      KeepsId f → (q : List Message) → IsUnique q → IsUnique (update_where p f q)
  unfolding update_where
  IsUnique-update_where same [] u = tt
  IsUnique-update_where same (m ∷ q) (fresh, u) = elim (Bool-cases (p m)) [
    | inl e ↦ rw e (rw same (any-update_where same m.id q ∙ fresh), IsUnique-update_where same q u)
    | inr e ↦ rw e (any-update_where same m.id q ∙ fresh, IsUnique-update_where same q u)
  ]

  -- A lookup by id after the update finds the updated row.
  pub find-update_where :
      KeepsId f
      → (k : ℕ) (q : List Message)
      → find (has_id k) (update_where p f q) ≡ Option.map (apply_if p f) (find (has_id k) q)
  unfolding update_where find
  find-update_where same k [] = refl
  find-update_where same k (m ∷ q) = ground (arith, same m, find-update_where same k q)

module _ (p : Message → Bool) where
  pub any-select :
      (k : ℕ) (q : List Message) → any (has_id k) q ≡ false → any (has_id k) (select p q) ≡ false
  unfolding any select
  any-select k [] h = refl
  any-select k (m ∷ q) h = ground (arith, any-select k q)

  pub IsUnique-select : (q : List Message) → IsUnique q → IsUnique (select p q)
  unfolding select
  IsUnique-select [] u = tt
  IsUnique-select (m ∷ q) (fresh, u) = elim (Bool-cases (p m)) [
    | inl e ↦ rw e (any-select m.id q fresh, IsUnique-select q u)
    | inr e ↦ rw e (IsUnique-select q u)
  ]

  -- A row that passes the test is still found after the others are dropped.
  pub find-select :
      (k : ℕ) (q : List Message) (m : Message)
      → find (has_id k) q ≡ some m
      → p m ≡ true
      → find (has_id k) (select p q) ≡ some m
  unfolding find select
  find-select k [] m h e = cc
  find-select k (n ∷ q) m h e = ground (arith, find-select k q m)

  pub All-select_of {κ} : (P : Message → Type κ) (q : List Message) → All P q → All P (select p q)
  unfolding select
  All-select_of P [] h = tt
  All-select_of P (m ∷ q) (pm, h) = elim (Bool-cases (p m)) [
    | inl e ↦ rw e (pm, All-select_of P q h)
    | inr e ↦ rw e (All-select_of P q h)
  ]

pub any-append :
    (k : ℕ) (q r : List Message) → any (has_id k) (q ++ r) ≡ (any (has_id k) q || any (has_id k) r)
unfolding any
any-append k [] r = refl
any-append k (m ∷ q) r = ground (arith, any-append k q r)

pub IsUnique-append :
    (q : List Message) (m : Message)
    → IsUnique q
    → any (has_id m.id) q ≡ false
    → IsUnique (q ++ m ∷ [])
unfolding any
IsUnique-append [] m u h = (refl, tt)
IsUnique-append (n ∷ q) m (fresh, u) h =
    (ground (arith, any-append n.id q (m ∷ [])), IsUnique-append q m u (ground arith))

pub find-append :
    (k : ℕ) (q r : List Message) (m : Message)
    → find (has_id k) q ≡ some m
    → find (has_id k) (q ++ r) ≡ some m
unfolding find
find-append k [] r m h = cc
find-append k (n ∷ q) r m h = ground (arith, find-append k q r m)

pub find-id : (k : ℕ) (q : List Message) (m : Message) → find (has_id k) q ≡ some m → m.id ≡ k
unfolding find
find-id k [] m h = cc
find-id k (n ∷ q) m h = ground (arith, find-id k q m)

find-absent : (k : ℕ) (q : List Message) → any (has_id k) q ≡ false → find (has_id k) q ≡ none
unfolding find any
find-absent k [] h = refl
find-absent k (n ∷ q) h = ground (arith, find-absent k q)

abbrev pub IsFound : List Message → Message → Type 0
IsFound q m = find (has_id m.id) q ≡ some m

IsFound-cons :
    (n : Message) (q r : List Message)
    → any (has_id n.id) r ≡ false
    → All (IsFound q) r
    → All (IsFound (n ∷ q)) r
unfolding find any
IsFound-cons n q [] fresh h = tt
IsFound-cons n q (m ∷ r) fresh (hm, h) = (ground arith, IsFound-cons n q r (ground arith) h)

-- Where ids are unique, each row is found under its own id.
pub All-IsFound : (q : List Message) → IsUnique q → All (IsFound q) q
unfolding find
All-IsFound [] u = tt
All-IsFound (m ∷ q) (fresh, u) = (ground arith, IsFound-cons m q q fresh (All-IsFound q u))

-- A row that shares its id with a listed row shares the listed row's lookup.
pub All-is_among {κ} :
    (P : Message → Type κ) (rows : List Message) (m : Message)
    → All P rows
    → is_among rows m ≡ true
    → (n : Message) × (n.id ≡ m.id) × P n
unfolding is_among any
All-is_among P [] m h e = cc
All-is_among P (n ∷ rows) m (pn, h) e = elim (Bool-cases (n.id == m.id)) [
  | inl f ↦ (n, ground arith, pn)
  | inr f ↦ All-is_among P rows m h (ground arith)
]

-- An update of one row that was just inserted.
pub update_where-absent :
    (p : Message → Bool) (f : Message → Message) (k : ℕ) (q : List Message)
    → ((m : Message) → p m ≡ true → m.id ≡ k)
    → any (has_id k) q ≡ false
    → update_where p f q ≡ q
unfolding update_where any
update_where-absent p f k [] own h = refl
update_where-absent p f k (m ∷ q) own h = elim (Bool-cases (p m)) [
  | inl e ↦ let same : m.id ≡ k = own m e in ground arith
  | inr e ↦ rw e (ap (λ rest. m ∷ rest) (update_where-absent p f k q own (ground arith)))
]

pub update_where-append :
    (p : Message → Bool) (f : Message → Message) (q r : List Message)
    → update_where p f (q ++ r) ≡ update_where p f q ++ update_where p f r
unfolding update_where
update_where-append p f [] r = refl
update_where-append p f (m ∷ q) r =
    ap (λ rest. (if p m then f m else m) ∷ rest) (update_where-append p f q r)

pub any-snoc :
    (p : Message → Bool) (q : List Message) (m : Message) → p m ≡ true → any p (q ++ m ∷ []) ≡ true
unfolding any
any-snoc p [] m e = ground arith
any-snoc p (n ∷ q) m e = ground (arith, any-snoc p q m e)

any-of_find :
    (k : ℕ) (q : List Message) (m : Message) → find (has_id k) q ≡ some m → any (has_id k) q ≡ true
unfolding find any
any-of_find k [] m h = cc
any-of_find k (n ∷ q) m h = ground (arith, any-of_find k q m)

-- A statement on the row of an id runs, and the row is found updated.
pub exec_update-found :
    (k : ℕ) (f : Message → Message) (q : List Message) (m : Message)
    → KeepsId f
    → find (has_id k) q ≡ some m
    → (q' : List Message) × (exec_update (has_id k) f q ≡ some q')
      × (find (has_id k) q' ≡ some (f m))
unfolding exec_update
exec_update-found k f q m same h =
    let own : m.id ≡ k = find-id k q m h in
    (
      update_where (has_id k) f q,
      rw (any-of_find k q m h) refl,
      rw (find-update_where (has_id k) f same k q, h) (ground arith),
    )
