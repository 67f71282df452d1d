-- ===== src/Mq/Marks.antt =====
-- What a mark does to the rows of an outbox, and when they decode.
use mesh_cart.Base.{
  suc, ◌≡◌, refl, ap, String, List, [], ◌∷◌, Bool, true, false, Option, none, some, map, ◌&&◌, inl,
  inr, Bool-cases, arith,
}
use mesh_cart.Base.Int.{ℤ, eq_ℤ}
use mesh_cart.Base.Lists.{All, any, length, update_where}
use mesh_cart.App.Time.{Time}
use mesh_cart.Mq.Outbox.{OutboxRecord}
use mesh_cart.Mq.Store.{OutboxMessage, message_of, decode_headers, decode_rows, set_published}
use mesh_cart.Mq.Delivery.{is_published}

module _ {A B : Type 0} where
  pub length-map : (f : A → B) (xs : List A) → length (map f xs) ≡ length xs
  length-map f [] = refl
  length-map f (x ∷ xs) = ap suc (length-map f xs)

  pub All-of_map :
      (Q : B → Type 0) (f : A → B) (xs : List A) → All Q (map f xs) → All (λ x. Q (f x)) xs
  All-of_map Q f [] a = tt
  All-of_map Q f (x ∷ xs) a = (a.0, All-of_map Q f xs a.1)

module _ {P : Type 0} where
  abbrev pub has_row : ℤ → OutboxRecord P → Bool
  has_row k r = eq_ℤ r.id k

  abbrev pub is_done : ℤ → OutboxRecord P → Bool
  is_done k r = eq_ℤ r.id k && is_published r.status

  abbrev pub is_decodable : OutboxRecord P → Bool
  is_decodable r = elim (decode_headers r.headers_json) [ none ↦ false | some hs ↦ true ]

  -- Every row decodes.
  pub decodes :
      (rs : List (OutboxRecord P))
      → All (λ r. is_decodable r ≡ true) rs
      → (ms : List (OutboxMessage P)) × (decode_rows rs ≡ some ms)
  unfolding decode_rows
  decodes [] a = ([], refl)
  decodes (r ∷ rs) a =
      let (ms, e) = decodes rs a.1 in head ms e (decode_headers r.headers_json) refl
    where
      head :
          (ms : List (OutboxMessage P))
          → decode_rows rs ≡ some ms
          → (o : Option (List (String × String))) → decode_headers r.headers_json ≡ o
          → (all : List (OutboxMessage P)) × (decode_rows (r ∷ rs) ≡ some all)
      head ms e none f = absurd (ground (arith, a.0))
      head ms e (some hs) f = (message_of r hs ∷ ms, rw (f, e))

  -- The row of a mark is published, and others stay so.
  pub marks_done :
      (k : ℤ) (at : Time) (rows : List (OutboxRecord P))
      → any (has_row k) rows ≡ true
      → any (is_done k) (update_where (has_row k) (set_published at) rows) ≡ true
  marks_done k at [] h = cc
  marks_done k at (r ∷ rows) h = elim (Bool-cases (eq_ℤ r.id k)) [
    | inl on ↦ rw (on) (ground arith)
    | inr off ↦ rw off (ground (arith, marks_done k at rows))
  ]

  pub stays_done :
      (j k : ℤ) (at : Time) (rows : List (OutboxRecord P))
      → any (is_done j) rows ≡ true
      → any (is_done j) (update_where (has_row k) (set_published at) rows) ≡ true
  stays_done j k at [] h = h
  stays_done j k at (r ∷ rows) h = elim (Bool-cases (eq_ℤ r.id k)) [
    | inl on ↦ rw (on) (ground (arith, stays_done j k at rows))
    | inr off ↦ rw off (ground (arith, stays_done j k at rows))
  ]

  pub stays_there :
      (j : ℤ) (p : OutboxRecord P → Bool) (f : OutboxRecord P → OutboxRecord P)
      → ((r : OutboxRecord P) → (f r).id ≡ r.id)
      → (rows : List (OutboxRecord P)) → any (has_row j) rows ≡ true
      → any (has_row j) (update_where p f rows) ≡ true
  stays_there j p f keeps [] h = h
  stays_there j p f keeps (r ∷ rows) h = ground (arith, keeps r, stays_there j p f keeps rows)
