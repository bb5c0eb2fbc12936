-- ===== src/Api/Alerts/Coverage.antt =====
-- A client that follows the cursors sees every alert of its filter once, in order.
use ambagrid.Common.{
  ℕ, zero, suc, ◌+◌, ◌≤◌, ◌<◌, ◌≡◌, refl, sym, ◌∙◌, ap, inl, inr, true, false, ◌&&◌, Option, none,
  some, List, [], ◌∷◌, ◌++◌, arith, Text, All, leb, is_empty, length, take, length-append,
  append_assoc, ok, select_where, Bool-cases,
}
use ambagrid.Api.Pages.Cursor.{Codecs, decode_time_id}
use ambagrid.Api.Pages.RoundTrip.{
  Readable, ReadableKey, decode_time_id-encode_time_id, encode_time_id-full,
}
use ambagrid.Api.Alerts.Listing
use ambagrid.Api.Alerts.Order.{Ordered, All-select_where, All-middle, select_where-behind}

take_all : (n : ℕ) (xs : List Listing.Alert) → length (take (suc n) xs) ≤ n → take (suc n) xs ≡ xs
take_all zero [] h = refl
take_all zero (x ∷ xs) h = absurd (omega (arith, h))
take_all (suc n) [] h = refl
take_all (suc n) (x ∷ xs) h = ap (λ l. x ∷ l) (take_all n xs (omega (arith, h)))

-- A page that is full ends in its last row, and the rest stands behind it.
record Slice (limit : ℕ) (xs : List Listing.Alert) : Type 0 where
  front : List Listing.Alert
  last : Listing.Alert
  rest : List Listing.Alert
  page : take limit (take (suc limit) xs) ≡ front ++ last ∷ []
  whole : xs ≡ front ++ last ∷ rest

cut_at :
    (n : ℕ) (xs : List Listing.Alert) → suc n < length (take (suc (suc n)) xs) → Slice (suc n) xs
cut_at zero [] h = absurd (omega (arith, h))
cut_at zero (x ∷ xs) h = record { front = []; last = x; rest = xs; page = refl; whole = refl }
cut_at (suc n) [] h = absurd (omega (arith, h))
cut_at (suc n) (x ∷ xs) h =
    let c = cut_at n xs (omega (arith, h)) in
    record {
      front = x ∷ c.front;
      last = c.last;
      rest = c.rest;
      page = ap (λ l. x ∷ l) c.page;
      whole = ap (λ l. x ∷ l) c.whole;
    }

last_key-append :
    (key : Listing.Alert → Text) (front : List Listing.Alert) (x : Listing.Alert)
    → Listing.last_key key (front ++ x ∷ []) ≡ key x
last_key-append key [] x = refl
last_key-append key (y ∷ []) x = refl
last_key-append key (y ∷ z ∷ front) x = last_key-append key (z ∷ front) x

full_page :
    (limit : ℕ) (xs : List Listing.Alert)
    → 1 ≤ limit
    → limit < length (take (suc limit) xs)
    → Slice limit xs
full_page zero xs some_rows h = absurd (omega (arith, some_rows))
full_page (suc n) xs some_rows h = cut_at n xs h

full_text : (t : Text) → is_empty t ≡ false → (b : ℕ) × (rest : Text) × (t ≡ b ∷ rest)
unfolding is_empty
full_text [] h = absurd (ground arith)
full_text (b ∷ rest) h = (b, rest, refl)

-- The cursor behind the alert is read back.
abbrev pub KeyIsReadable : Codecs → Listing.Alert → Type 0
KeyIsReadable k a = ReadableKey k a.opened_at a.alert_id

module _ (k : Codecs) (f : Listing.AlertFilter) (limit : ℕ) (rows : List Listing.Alert) where
  abbrev left_behind : Option (ℕ × ℕ) → List Listing.Alert
  left_behind c = select_where (λ a. Listing.matches f a && Listing.after_cursor c a) rows

  -- What remains behind a cursor that the service gave, or at the start, is what following it gives.
  followed :
      (n : ℕ) (cursor : Text) (c : Option (ℕ × ℕ))
      → Readable k
      → 1 ≤ limit
      → Ordered rows
      → All (KeyIsReadable k) rows
      → decode_time_id k cursor ≡ ok c
      → length (left_behind c) < n
      → Listing.follow k f limit rows n cursor ≡ ok (left_behind c)
  unfolding Listing.follow Listing.list_alerts Listing.build
  followed zero cursor c r some_rows o keys read fuel = absurd (omega (arith, fuel))
  followed (suc n) cursor c r some_rows o keys read fuel =
      let found = left_behind c in
      elim (Bool-cases (leb (length (take (suc limit) found)) limit)) [
        | inl last_page ↦
            let all = take_all limit found (ground arith) in rw (read, last_page, all) refl
        | inr more ↦
            let page = full_page limit found some_rows (ground arith) in
            let x = page.last in
            let found_keys =
              All-select_where (KeyIsReadable k)
                (λ a. Listing.matches f a && Listing.after_cursor c a) rows keys in
            let key : KeyIsReadable k x =
              All-middle (KeyIsReadable k) page.front x page.rest (rw page.whole at found_keys) in
            let (b, next, full) = full_text _ (encode_time_id-full k x.opened_at x.alert_id r) in
            let behind_last : left_behind (some (x.opened_at, x.alert_id)) ≡ page.rest =
              select_where-behind (Listing.matches f) c rows page.front page.rest x o page.whole in
            let read_next : decode_time_id k (b ∷ next) ≡ ok (some (x.opened_at, x.alert_id)) =
              rw full at (decode_time_id-encode_time_id k x.opened_at x.alert_id r key) in
            let counted : length found ≡ length page.front + suc (length page.rest) =
              ap length page.whole ∙ length-append page.front (x ∷ page.rest) in
            let shorter : length (left_behind (some (x.opened_at, x.alert_id))) < n =
              rw behind_last (omega (arith, fuel, counted)) in
            let ih =
              followed n (b ∷ next) (some (x.opened_at, x.alert_id)) r some_rows o keys read_next
                shorter in
            rw (read, more, page.page, last_key-append (Listing.key_of k) page.front x, full, ih)
              (rw (behind_last, append_assoc page.front (x ∷ []) page.rest)
                (ap ok (sym page.whole)))
      ]

  matched :
      (xs : List Listing.Alert)
      → select_where (λ a. Listing.matches f a && true) xs ≡ select_where (Listing.matches f) xs
  unfolding select_where
  matched [] = refl
  matched (x ∷ xs) = elim (Bool-cases (Listing.matches f x)) [
    | inl picked ↦ rw (picked, matched xs) refl
    | inr left ↦ rw (left, matched xs) refl
  ]

  -- A client that follows the cursors from the start is done after at most one page more than there are
  -- rows of its filter, and has got every one of them, once and in the order of the listing. The limit
  -- is not 0, the rows are ordered, no two alike, and base64, the times and the IDs of the rows are read
  -- back as they were written.
  pub follow-select_where :
      (n : ℕ)
      → Readable k
      → 1 ≤ limit
      → Ordered rows
      → All (KeyIsReadable k) rows
      → length (select_where (Listing.matches f) rows) < n
      → Listing.follow k f limit rows n [] ≡ ok (select_where (Listing.matches f) rows)
  unfolding decode_time_id is_empty
  follow-select_where n r some_rows o keys fuel =
      followed n [] none r some_rows o keys refl (rw (matched rows) fuel) ∙ ap ok (matched rows)
