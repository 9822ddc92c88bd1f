-- ===== src/Storage/Tables.antt =====
-- A table of the SQL store, by primary key, with the statements that the services send
-- (`authzkit/storage/orm.py` declares the tables). A statement runs alone: each stands for one
-- transaction, which the database makes atomic.
use authz.Base.{
  ℕ, ◌+◌, String, Bool, true, false, ◌&&◌, ◌||◌, Option, none, some, List, [], ◌∷◌, Result, ok, err,
  Dict, lookup, insert, values, values-insert_new, first, first-append_none, first_holds, any,
  Option-cases, Bool-cases, inl, inr, ◌==◌, string_eq, ◌≡◌, refl, sym, ==-refl, and-true, eq_iff,
  arith, if◌then◌else◌,
}

-- A constraint that a statement would break.
pub data DbError : Type 0 where
  integrity_error : DbError

module _ {V : Type 0} where
  -- `scalar(select(…).where(p))` where at most one row fits
  unfoldable pub scalar : (V → Bool) → Dict String V → Option V
  scalar p table = first p (values table)

  abbrev is_there : Option V → Bool
  is_there none = false
  is_there (some v) = true

  -- `add` and `commit`: the key is new, and no row clashes on a unique column.
  unfoldable pub add :
      (clashes : V → Bool) → String → V → Dict String V → Result DbError (Dict String V)
  add clashes key row table =
      if is_there (lookup key table) || any clashes (values table)
      then err integrity_error
      else ok (insert key row table)

  -- `update(…).where(p).values(…)`, with the row count
  unfoldable pub update_where : (V → Bool) → (V → V) → Dict String V → ℕ × Dict String V
  update_where p f [] = (0, [])
  update_where p f ((k, v) ∷ table) =
      let (n, rest) = update_where p f table in
      if p v then (1 + n, (k, f v) ∷ rest) else (n, (k, v) ∷ rest)

  -- `delete(…).where(p)`, with the row count
  unfoldable pub delete_where : (V → Bool) → Dict String V → ℕ × Dict String V
  delete_where p [] = (0, [])
  delete_where p ((k, v) ∷ table) =
      let (n, rest) = delete_where p table in if p v then (1 + n, rest) else (n, (k, v) ∷ rest)

  -- What a statement makes of a row.
  abbrev pub updated : (V → Bool) → (V → V) → Option V → Option V
  updated p f none = none
  updated p f (some v) = some (if p v then f v else v)

  pub lookup-update_where :
      (p : V → Bool) (f : V → V) (k : String) (table : Dict String V)
      → lookup k (update_where p f table).1 ≡ updated p f (lookup k table)
  unfolding update_where lookup
  lookup-update_where p f k [] = refl
  lookup-update_where p f k ((j, v) ∷ table) = ground (arith, lookup-update_where p f k table)

module _ {V : Type 0} where
  any-first : (p : V → Bool) (xs : List V) → any p xs ≡ false → first p xs ≡ none
  unfolding any first
  any-first p [] h = refl
  any-first p (x ∷ xs) h = ground (arith, any-first p xs)

  -- A row that is added is found by its unique column.
  pub add-ok :
      (clashes : V → Bool) (k : String) (row : V) (table after : Dict String V)
      → add clashes k row table ≡ ok after
      → (lookup k table ≡ none) × (scalar clashes table ≡ none) × (after ≡ insert k row table)
  unfolding add scalar
  add-ok clashes k row table after h = elim (Option-cases (lookup k table)) [
    | inr (old, e) ↦ ground arith
    | inl fresh ↦ elim (Bool-cases (any clashes (values table))) [
      | inl clash ↦ ground arith
      | inr free ↦ (fresh, any-first clashes (values table) free, ground arith)
    ]
  ]

  pub scalar-add :
      (clashes : V → Bool) (k : String) (row : V) (table after : Dict String V)
      → add clashes k row table ≡ ok after
      → clashes row ≡ true
      → scalar clashes after ≡ some row
  unfolding scalar first
  scalar-add clashes k row table after h fits =
      let (fresh, free, same) = add-ok clashes k row table after h in
      rw (same, values-insert_new k row table fresh)
        (rw (first-append_none clashes (values table) (row ∷ []) free) (ground arith))

  pub scalar-holds :
      (p : V → Bool) (table : Dict String V) {row : V} → scalar p table ≡ some row → p row ≡ true
  unfolding scalar
  scalar-holds p table h = first_holds p (values table) h

  pub scalar-update_where :
      (p q : V → Bool) (f : V → V) (table : Dict String V)
      → ((v : V) → p (f v) ≡ p v)
      → scalar p (update_where q f table).1 ≡ updated q f (scalar p table)
  unfolding scalar first values update_where
  scalar-update_where p q f [] keeps = refl
  scalar-update_where p q f ((k, v) ∷ table) keeps = elim (Bool-cases (q v)) [
    | inl hit ↦ elim (Bool-cases (p v)) [
      | inl fits ↦ rw (hit, keeps v, fits, hit) refl
      | inr other ↦ rw (hit, keeps v, other) (scalar-update_where p q f table keeps)
    ]
    | inr miss ↦ elim (Bool-cases (p v)) [
      | inl fits ↦ rw (miss, fits, miss) refl
      | inr other ↦ rw (miss, other) (scalar-update_where p q f table keeps)
    ]
  ]

  -- A statement whose change is such that its test fails finds nothing a second time.
  pub update_where-twice :
      (p : V → Bool) (f g : V → V) (table : Dict String V)
      → ((v : V) → p v ≡ true → p (f v) ≡ false)
      → ((update_where p g (update_where p f table).1).0 ≡ 0)
        × ((update_where p g (update_where p f table).1).1 ≡ (update_where p f table).1)
  unfolding update_where
  update_where-twice p f g [] clears = (refl, refl)
  update_where-twice p f g ((k, v) ∷ table) clears =
      let (zero_rows, same) = update_where-twice p f g table clears in
      elim (Bool-cases (p v)) [
        | inl hit ↦ rw (hit, clears v hit, zero_rows, same) (refl, refl)
        | inr miss ↦ rw (miss, miss, zero_rows, same) (refl, refl)
      ]

-- ---- Rows that hold their own key

module _ {V : Type 0} (key_of : V → String) where
  unfoldable pub keyed : Dict String V → Bool
  keyed [] = true
  keyed ((k, v) ∷ table) = let rest = keyed table in key_of v == k && rest

  pub keyed-insert :
      (k : String) (v : V) (table : Dict String V)
      → key_of v ≡ k
      → keyed table ≡ true
      → keyed (insert k v table) ≡ true
  unfolding keyed insert
  keyed-insert k v [] own h = ground (arith, eq_iff (key_of v) k)
  keyed-insert k v ((j, w) ∷ table) own h =
      ground (arith, eq_iff (key_of v) k, eq_iff (key_of w) j, eq_iff j k, keyed-insert k v table)

  -- A row that a query finds and writes back is what the query finds.
  pub scalar-insert :
      (p : V → Bool) (row changed : V) (table : Dict String V)
      → keyed table ≡ true
      → scalar p table ≡ some row
      → p changed ≡ true
      → scalar p (insert (key_of row) changed table) ≡ some changed
  unfolding keyed insert scalar first values
  scalar-insert p row changed [] own found fits = absurd (cc)
  scalar-insert p row changed ((j, w) ∷ table) own found fits =
      let (here, rest) = and-true (key_of w == j) (keyed table) own in
      let key_is : key_of w ≡ j = ground (arith, eq_iff (key_of w) j) in
      elim (Bool-cases (p w)) [
        | inl hit ↦
            let same : w ≡ row = ground arith in
            let own_key : (j == key_of row) ≡ true = rw (sym same, key_is, ==-refl j) refl in
            rw (own_key, fits) refl
        | inr miss ↦
            let found_later : scalar p table ≡ some row = ground arith in
            elim (Bool-cases (j == key_of row)) [
              | inl clash ↦ rw (clash, fits) refl
              | inr other ↦
                  rw (other, miss) (scalar-insert p row changed table rest found_later fits)
            ]
      ]
