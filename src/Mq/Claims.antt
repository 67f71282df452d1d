-- ===== src/Mq/Claims.antt =====
-- app/mq/gorm_store.go: what ClaimPending claims.
use mathlib.Core.Path.{subst}
use mesh_cart.Base.{
  ℕ, zero, suc, ◌≡◌, refl, sym, ap, ◌⊎◌, inl, inr, String, List, [], ◌∷◌, Bool, true, false, some,
  map, if◌then◌else◌, Option-cases, arith,
}
use mesh_cart.Base.Int.{ℤ, pos, negsuc, pos_part, leb_ℤ}
use mesh_cart.Base.Lists.{All, select, sort_by, insert_by, take, update_where, mem_ℤ}
use mesh_cart.Base.Rows.{In, In-select, All-In}
use mesh_cart.App.Time.{Time}
use mesh_cart.Sql.{◌>>=◌, map_err, read}
use mesh_cart.Sql.Hoare.{
  Ensures, Ensures-bind, Ensures-pure, Ensures-map_err, Ensures-read, Ensures-write,
  Ensures-or_raise, Ensures-if, Ensures-weaken, Ensures-transaction, Keeps, Keeps-pure, Keeps-if,
  Keeps-transaction,
}
use mesh_cart.Mq.Outbox.{OutboxRecord}
use mesh_cart.Mq.Store.{
  OutboxMessage, OutboxDb, driver, is_due, row_id, due_rows, decode_headers, message_of,
  decode_rows, set_publishing, claim_rows, claim_some, claim_pending,
}

module _ {A : Type 0} where
  -- Sorting and cutting off add no row.
  In-of_insert_by :
      (key : A → ℤ) (x : A) (ys : List A) (a : A) → In a (insert_by key x ys) → (a ≡ x) ⊎ In a ys
  In-of_insert_by key x [] a (inl e) = inl e
  In-of_insert_by key x [] a (inr i) = absurd i
  In-of_insert_by key x (y ∷ ys) a i = place (leb_ℤ (key x) (key y)) (In-of_insert_by key x ys a) i
    where
      place :
          (b : Bool)
          → (In a (insert_by key x ys) → (a ≡ x) ⊎ In a ys)
          → In a (if b then x ∷ y ∷ ys else y ∷ insert_by key x ys)
          → (a ≡ x) ⊎ In a (y ∷ ys)
      place true k i = i
      place false k (inl e) = inr (inl e)
      place false k (inr j) = elim (k j) [ inl e ↦ inl e | inr h ↦ inr (inr h) ]

  pub In-of_sort_by : (key : A → ℤ) (xs : List A) (a : A) → In a (sort_by key xs) → In a xs
  In-of_sort_by key [] a i = i
  In-of_sort_by key (x ∷ xs) a i = elim (In-of_insert_by key x (sort_by key xs) a i) [
    | inl e ↦ inl e
    | inr j ↦ inr (In-of_sort_by key xs a j)
  ]

  pub In-of_take : (n : ℕ) (xs : List A) (a : A) → In a (take n xs) → In a xs
  In-of_take zero xs a i = absurd i
  In-of_take (suc n) [] a i = i
  In-of_take (suc n) (x ∷ xs) a (inl e) = inl e
  In-of_take (suc n) (x ∷ xs) a (inr i) = inr (In-of_take n xs a i)

module _ {P : Type 0} where
  -- A claimed row is a row of the table that is due.
  pub due_rows-All :
      (now : Time) (limit : ℤ) (rows : List (OutboxRecord P))
      → All (λ x. In x rows × (is_due now x ≡ true)) (due_rows now limit rows)
  due_rows-All now limit rows = All-In (due_rows now limit rows) λ x i.
      In-select (is_due now) rows x (
        In-of_sort_by row_id (select (is_due now) rows) x
          (In-of_take (pos_part limit) (sort_by row_id (select (is_due now) rows)) x i))

  pub decode-All :
      (Q : OutboxRecord P → Type 0) (R : OutboxMessage P → Type 0)
      → ((x : OutboxRecord P) (hs : List (String × String)) → Q x → R (message_of x hs))
      → (rs : List (OutboxRecord P)) (ms : List (OutboxMessage P)) → All Q rs
      → decode_rows rs ≡ some ms
      → All R ms
  unfolding decode_rows
  decode-All Q R k [] [] a e = tt
  decode-All Q R k [] (m ∷ ms) a e = absurd (ground arith)
  decode-All Q R k (r ∷ rs) ms a e = elim (Option-cases (decode_headers r.headers_json)) [
    | inl bad ↦ absurd (ground arith)
    | inr (hs, good) ↦ elim (Option-cases (decode_rows rs)) [
      | inl worse ↦ absurd (ground arith)
      | inr (rest, fine) ↦
          let same : message_of r hs ∷ rest ≡ ms = ground arith in
          subst (All R) same (k r hs a.0, decode-All Q R k rs rest a.1 fine)
    ]
  ]

  -- No row is taken where the limit is not positive.
  pub none_due :
      (now : Time) (limit : ℤ) (rows : List (OutboxRecord P))
      → leb_ℤ limit (pos 0) ≡ true
      → due_rows now limit rows ≡ []
  none_due now (pos zero) rows h = refl
  none_due now (pos (suc n)) rows h = absurd (ground arith)
  none_due now (negsuc n) rows h = refl

  abbrev pub message_id : OutboxMessage P → ℤ
  message_id m = m.id

  -- The messages are of the rows, in their order.
  pub decode-ids :
      (rs : List (OutboxRecord P)) (ms : List (OutboxMessage P))
      → decode_rows rs ≡ some ms
      → map message_id ms ≡ map row_id rs
  unfolding decode_rows
  decode-ids [] [] e = refl
  decode-ids [] (m ∷ ms) e = absurd (ground arith)
  decode-ids (r ∷ rs) ms e = elim (Option-cases (decode_headers r.headers_json)) [
    | inl bad ↦ absurd (ground arith)
    | inr (hs, good) ↦ elim (Option-cases (decode_rows rs)) [
      | inl worse ↦ absurd (ground arith)
      | inr (rest, fine) ↦
          let same : message_of r hs ∷ rest ≡ ms = ground arith in
          subst (λ ms. map message_id ms ≡ map row_id (r ∷ rs)) same
            (ap (λ ids. r.id ∷ ids) (decode-ids rs rest fine))
    ]
  ]

module _ {P S : Type 0} where
  -- The rows, with those of the ids claimed.
  abbrev pub claimed : List ℤ → OutboxDb P S → OutboxDb P S
  claimed ids d = record d { rows = update_where (λ r. mem_ℤ r.id ids) set_publishing d.rows }

  -- What a claim ensures, from what holds of the rows that are due.
  module _ (now : Time) (limit : ℤ) (Pre : OutboxDb P S → Type 0)
      (T : List (OutboxMessage P) → OutboxDb P S → Type 0)
      (idle : (d : OutboxDb P S) → Pre d → due_rows now limit d.rows ≡ [] → T [] d)
      (some_due : (d : OutboxDb P S) (ms : List (OutboxMessage P))
        → Pre d
        → decode_rows (due_rows now limit d.rows) ≡ some ms
        → T ms (claimed (map row_id (due_rows now limit d.rows)) d)) where
    abbrev Found : List (OutboxRecord P) → OutboxDb P S → Type 0
    Found rs d = Pre d × (rs ≡ due_rows now limit d.rows)

    claim_some_Ensures : (rs : List (OutboxRecord P)) → Ensures (Found rs) (claim_some rs) T
    unfolding claim_some claim_rows
    claim_some_Ensures [] = Ensures-pure _ λ d (p, e). idle d p (sym e)
    claim_some_Ensures (r ∷ rs) =
        Ensures-bind (λ ms d. Found (r ∷ rs) d × (decode_rows (r ∷ rs) ≡ some ms))
          (Ensures-or_raise _ _)
          λ ms.
            Ensures-bind (λ _ d. T ms d)
              (Ensures-map_err _ (
                Ensures-write _ λ d ((p, e), f).
                  subst (λ L. T ms (claimed (map row_id L) d)) (sym e)
                    (some_due d ms p (subst (λ L. decode_rows L ≡ some ms) e f))))
              λ _. Ensures-pure _ λ d t. t

    body_Ensures :
        Ensures Pre
          (map_err driver (read λ d. due_rows now limit d.rows) >>= λ found. claim_some found)
          T
    body_Ensures =
        Ensures-bind Found (Ensures-map_err _ (Ensures-read _ λ d p. (p, refl))) claim_some_Ensures

    pub claim_Ensures : Ensures Pre (claim_pending now limit) T
    unfolding claim_pending
    claim_Ensures =
        Ensures-if (leb_ℤ limit (pos 0))
          (λ h. Ensures-pure _ λ d p. idle d p (none_due now limit d.rows h))
          λ _. Ensures-transaction driver body_Ensures

    pub claim_Keeps :
        ((ms : List (OutboxMessage P)) (d : OutboxDb P S) → T ms d → Pre d)
        → Keeps Pre (claim_pending now limit)
    unfolding claim_pending
    claim_Keeps back =
        Keeps-if _ (Keeps-pure _)
          (Keeps-transaction driver (Ensures-weaken (λ d p. p) back body_Ensures))
