-- ===== src/Access/Pages.antt =====
-- The pages of a list: each has its bounded slice, and together they are the list.
use defnex_mlops.Base.{
  ℕ, List, [], ◌∷◌, ◌++◌, ◌≡◌, ◌≤◌, ◌<◌, ◌+◌, ◌*◌, ◌-◌, arith, refl, suc, zero, length, ap, sym,
  ◌∙◌,
}
use native.Mathlib.Nat.{div-add-mod', mod-lt, zero-lt-suc, mul-le-mul_right, suc-mul}
use defnex_mlops.Access.{PaginationParams, offset, pages_from, limit_rows, offset_rows, page_items}

-- The number of pages is the least that has room for the rows.
pages_from-room : (total s : ℕ) → total ≤ pages_from total (suc s) * suc s
unfolding pages_from
pages_from-room total s =
    let parts = div-add-mod' (total + s) (suc s) in
    let rest = mod-lt (total + s) (zero-lt-suc s) in omega (arith, parts, rest)

pages_from-least : (total s : ℕ) → pages_from total (suc s) * suc s ≤ total + s
unfolding pages_from
pages_from-least total s = let parts = div-add-mod' (total + s) (suc s) in omega (arith, parts)

module _ {A : Type 0} where
  length-limit_rows : (n : ℕ) (rows : List A) → length (limit_rows n rows) ≤ n
  unfolding limit_rows
  length-limit_rows zero rows = omega arith
  length-limit_rows (suc n) [] = omega arith
  length-limit_rows (suc n) (r ∷ rows) = let rest = length-limit_rows n rows in omega (arith, rest)

  limit_rows-filled :
      (n : ℕ) (rows : List A) → 0 < length rows → 0 < length (limit_rows (suc n) rows)
  unfolding limit_rows
  limit_rows-filled n [] h = h
  limit_rows-filled n (r ∷ rows) h = omega arith

  limit_rows-all : (n : ℕ) (rows : List A) → length rows ≤ n → limit_rows n rows ≡ rows
  unfolding limit_rows
  limit_rows-all zero [] h = refl
  limit_rows-all zero (r ∷ rows) h = absurd (omega (arith, h))
  limit_rows-all (suc n) [] h = refl
  limit_rows-all (suc n) (r ∷ rows) h = ap (λ l. r ∷ l) (limit_rows-all n rows (omega (arith, h)))

  limit_rows-empty : (k : ℕ) → limit_rows {A = A} k [] ≡ []
  unfolding limit_rows
  limit_rows-empty zero = refl
  limit_rows-empty (suc k) = refl

  limit_rows-add :
      (m n : ℕ) (rows : List A)
      → limit_rows m rows ++ limit_rows n (offset_rows m rows) ≡ limit_rows (m + n) rows
  unfolding limit_rows offset_rows
  limit_rows-add zero n rows = ap (λ k. limit_rows k rows) (omega arith)
  limit_rows-add (suc m) n [] = limit_rows-empty n ∙ sym (limit_rows-empty (suc m + n))
  limit_rows-add (suc m) n (r ∷ rows) =
      let same : suc m + n ≡ suc (m + n) = omega arith in
      rw same (ap (λ l. r ∷ l) (limit_rows-add m n rows))

  length-offset_rows : (n : ℕ) (rows : List A) → length (offset_rows n rows) ≡ length rows - n
  unfolding offset_rows
  length-offset_rows zero rows = omega arith
  length-offset_rows (suc n) [] = omega arith
  length-offset_rows (suc n) (r ∷ rows) =
      let rest = length-offset_rows n rows in omega (arith, rest)

  -- The items of the first pages, one page after the other.
  abbrev pub first_pages : ℕ → ℕ → List A → List A
  first_pages zero size rows = []
  first_pages (suc k) size rows =
      first_pages k size rows ++ page_items (record { page = suc k; size = size }) rows

  first_pages-limit_rows :
      (k size : ℕ) (rows : List A) → first_pages k size rows ≡ limit_rows (k * size) rows
  unfolding page_items offset limit_rows
  first_pages-limit_rows zero size rows =
      let none_left : zero * size ≡ 0 = omega arith in sym (ap (λ n. limit_rows n rows) none_left)
  first_pages-limit_rows (suc k) size rows =
      let back : suc k - 1 ≡ k = omega arith in
      rw (back, suc-mul k size, first_pages-limit_rows k size rows)
        (limit_rows-add (k * size) size rows)

  -- For a page size that is not zero, the pages up to the number of pages are, one after the other,
  -- the whole list; no page has more items than the size, and each of these has an item.
  pub first_pages_complete :
      (s : ℕ) (rows : List A)
      → (first_pages (pages_from (length rows) (suc s)) (suc s) rows ≡ rows)
        × ((pg : PaginationParams) → length (page_items pg rows) ≤ pg.size)
        × ((k : ℕ)
            → k < pages_from (length rows) (suc s)
            → 0 < length (page_items (record { page = suc k; size = suc s }) rows))
  unfolding page_items offset
  first_pages_complete s rows =
      let q = pages_from (length rows) (suc s) in
      (
        first_pages-limit_rows q (suc s) rows
            ∙ limit_rows-all (q * suc s) rows (pages_from-room (length rows) s),
        λ pg. length-limit_rows pg.size (offset_rows (offset pg) rows),
        λ k h.
            let least = pages_from-least (length rows) s in
            let fits = mul-le-mul_right (suc s) h in
            let more = suc-mul k (suc s) in
            let start : (suc k - 1) * suc s ≡ k * suc s = ap (λ x. x * suc s) (omega arith) in
            let left = length-offset_rows (offset (record { page = suc k; size = suc s })) rows in
            limit_rows-filled s (offset_rows (offset (record { page = suc k; size = suc s })) rows)
              (omega (arith, least, fits, more, start, left)),
      )
