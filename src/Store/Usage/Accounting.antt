-- ===== src/Store/Usage/Accounting.antt =====
-- Proofs about the monthly account of a domain (internal/store/sendlimit.go).
use xeron_mx.Prelude.{
  ℕ, ◌+◌, ◌-◌, ◌≡◌, refl, ◌∙◌, true, false, ◌||◌, ◌⊎◌, Option, some, List, [], ◌∷◌, ◌++◌,
  if◌then◌else◌, any, map, arith, Bool-cases, inl, inr,
}
use xeron_mx.Store.Types.{Usage, Db}
use xeron_mx.Store.Usage.{
  is_row, sum_sent, sent_this_month, add_sent, upsert, over, reserve_sends, release_sends,
}

-- The table's primary key is (domain_id, month).
abbrev pub IsKeyed : List Usage → Type 0
IsKeyed [] = Unit
IsKeyed (u ∷ rows) = (any (is_row u.domain_id u.month) rows ≡ false) × IsKeyed rows

module _ (k month : ℕ) where
  sum_absent : (rows : List Usage) → any (is_row k month) rows ≡ false → sum_sent k month rows ≡ 0
  unfolding sum_sent any
  sum_absent [] h = refl
  sum_absent (u ∷ rows) h = ground (arith, sum_absent rows)

  map-add_absent :
      (n : ℕ) (rows : List Usage)
      → any (is_row k month) rows ≡ false
      → map (add_sent k month n) rows ≡ rows
  unfolding any
  map-add_absent n [] h = refl
  map-add_absent n (u ∷ rows) h = ground (arith, map-add_absent n rows)

  -- The row of a key is the only one.
  fresh-key :
      (u : Usage) (rows : List Usage)
      → any (is_row u.domain_id u.month) rows ≡ false
      → is_row k month u ≡ true
      → any (is_row k month) rows ≡ false
  fresh-key u rows fresh e =
      let same : u.domain_id ≡ k = ground arith in
      let same' : u.month ≡ month = ground arith in rw (← same, ← same') fresh

  sum-add :
      (n : ℕ) (rows : List Usage)
      → IsKeyed rows
      → any (is_row k month) rows ≡ true
      → sum_sent k month (map (add_sent k month n) rows) ≡ sum_sent k month rows + n
  unfolding sum_sent any
  sum-add n [] key h = cc
  sum-add n (u ∷ rows) (fresh, key) h = elim (Bool-cases (is_row k month u)) [
    | inl e ↦ ground (arith, map-add_absent n rows (fresh-key u rows fresh e))
    | inr e ↦ ground (arith, sum-add n rows key)
  ]

  sum-append :
      (rows more : List Usage)
      → sum_sent k month (rows ++ more) ≡ sum_sent k month rows + sum_sent k month more
  unfolding sum_sent
  sum-append [] more = omega arith
  sum-append (u ∷ rows) more = omega (arith, sum-append rows more)

  sum-upsert :
      (n : ℕ) (rows : List Usage)
      → IsKeyed rows
      → sum_sent k month (upsert k month n rows) ≡ sum_sent k month rows + n
  unfolding upsert
  sum-upsert n rows key = elim (Bool-cases (any (is_row k month) rows)) [
    | inl e ↦ rw e (sum-add n rows key e)
    | inr e ↦ rw (e, sum-append rows _) (unfold sum_sent in ground arith)
  ]

  any-map-add :
      (n : ℕ) (rows : List Usage)
      → any (is_row k month) (map (add_sent k month n) rows) ≡ any (is_row k month) rows
  unfolding any
  any-map-add n [] = refl
  any-map-add n (u ∷ rows) = ground (arith, any-map-add n rows)

  any-append :
      (rows more : List Usage)
      → any (is_row k month) (rows ++ more)
        ≡ (any (is_row k month) rows || any (is_row k month) more)
  unfolding any
  any-append [] more = refl
  any-append (u ∷ rows) more = ground (arith, any-append rows more)

  any-upsert : (n : ℕ) (rows : List Usage) → any (is_row k month) (upsert k month n rows) ≡ true
  unfolding upsert
  any-upsert n rows = elim (Bool-cases (any (is_row k month) rows)) [
    | inl e ↦ rw (e, any-map-add n rows) e
    | inr e ↦ rw (e, any-append rows _) (unfold any in ground arith)
  ]

  -- Either the sends fit the limit, and then they are granted and the month's account grows by
  -- exactly them; or they do not, and then they are refused and nothing changes. What was sent before
  -- is told in both cases.
  pub reserve_sends_lem :
      (n : ℕ) (limit : Option ℕ) (db : Db)
      → IsKeyed db.usage
      → let before = sent_this_month k month db in
        let r = reserve_sends k n limit month db in
        (r.0.1 ≡ before)
        × (((over (before + n) limit ≡ false)
              × (r.0.0 ≡ true)
              × (sent_this_month k month r.1 ≡ before + n))
            ⊎ ((over (before + n) limit ≡ true) × (r.0.0 ≡ false) × (r.1 ≡ db)))
  unfolding reserve_sends
  reserve_sends_lem n limit db key =
      elim (Bool-cases (over (sent_this_month k month db + n) limit)) [
        | inl e ↦ rw e (refl, inr (refl, refl, refl))
        | inr e ↦ rw e (refl, inl (refl, refl, sum-upsert n db.usage key))
      ]

  sum-release :
      (n : ℕ) (rows : List Usage)
      → IsKeyed rows
      → sum_sent k month (
          map
            (λ (u : Usage).
              if is_row k month u then record u { recipients = u.recipients - n } else u)
            rows)
        ≡ sum_sent k month rows - n
  unfolding sum_sent
  sum-release n [] key = omega arith
  sum-release n (u ∷ rows) (fresh, key) = elim (Bool-cases (is_row k month u)) [
    | inl e ↦ ground (arith, sum-release n rows key, sum_absent rows (fresh-key u rows fresh e))
    | inr e ↦ ground (arith, sum-release n rows key)
  ]

module _ (k month n : ℕ) where
  any-of_map :
      (i j : ℕ) (rows : List Usage)
      → any (is_row i j) (map (add_sent k month n) rows) ≡ any (is_row i j) rows
  unfolding any
  any-of_map i j [] = refl
  any-of_map i j (u ∷ rows) = ground (arith, any-of_map i j rows)

  IsKeyed-map : (rows : List Usage) → IsKeyed rows → IsKeyed (map (add_sent k month n) rows)
  IsKeyed-map [] key = tt
  IsKeyed-map (u ∷ rows) (fresh, key) = elim (Bool-cases (is_row k month u)) [
    | inl e ↦ rw e (any-of_map u.domain_id u.month rows ∙ fresh, IsKeyed-map rows key)
    | inr e ↦ rw e (any-of_map u.domain_id u.month rows ∙ fresh, IsKeyed-map rows key)
  ]

  IsKeyed-append :
      (u : Usage) (rows : List Usage)
      → is_row k month u ≡ true
      → IsKeyed rows
      → any (is_row k month) rows ≡ false
      → IsKeyed (rows ++ u ∷ [])
  unfolding any
  IsKeyed-append u [] e key h = (refl, tt)
  IsKeyed-append u (v ∷ rows) e (fresh, key) h = (
    ground (arith, any-append v.domain_id v.month rows (u ∷ [])),
    IsKeyed-append u rows e key (ground arith),
  )

  -- A reservation keeps one row for each domain and month.
  pub IsKeyed-upsert : (rows : List Usage) → IsKeyed rows → IsKeyed (upsert k month n rows)
  unfolding upsert
  IsKeyed-upsert rows key = elim (Bool-cases (any (is_row k month) rows)) [
    | inl e ↦ rw e (IsKeyed-map rows key)
    | inr e ↦ rw e (IsKeyed-append _ rows (ground arith) key e)
  ]

  -- Sends that were reserved and are released again are not counted: the release finds the month's
  -- row, and leaves the account of the month as it was before the reservation.
  pub release_sends-reserve_sends :
      (limit : Option ℕ) (db : Db)
      → IsKeyed db.usage
      → over (sent_this_month k month db + n) limit ≡ false
      → (db' : Db) × (release_sends k n month (reserve_sends k n limit month db).1 ≡ some db')
        × (sent_this_month k month db' ≡ sent_this_month k month db)
  unfolding release_sends reserve_sends
  release_sends-reserve_sends limit db key fits =
      rw (fits, any-upsert k month n db.usage)
        (
          _,
          refl,
          sum-release k month n (upsert k month n db.usage) (IsKeyed-upsert db.usage key)
              ∙ omega (arith, sum-upsert k month n db.usage key),
        )
