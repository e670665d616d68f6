-- ===== src/Forgejo/Client/Pages.antt =====
-- crates/ar-forgejo/src/client.rs: a listing that is read page by page.
use auto_review.Prelude.{
  ℕ, zero, suc, ◌+◌, ◌*◌, ◌≤◌, ◌<◌, ◌≡◌, refl, sym, ap, ◌∙◌, ◌⊎◌, inl, inr, List, [], ◌∷◌, ◌++◌,
  append_assoc, append-nil, Result, ok, arith, take, drop, ltb, ltb→lt, length, Bool-cases,
}
use auto_review.Prelude.Text.{Text, codes}
use auto_review.Prelude.Search.{show_nat}
use auto_review.Forge.{ChangedFile}
use auto_review.Forgejo.Client.{
  Error, Client, list_pages, list_all, json_get, page_query, repo_path, list_changed_files,
}

add_zero : (n : ℕ) → 0 + n ≡ n
add_zero n = omega arith

add_suc : (m n : ℕ) → suc m + n ≡ suc (m + n)
add_suc m n = omega arith

next_page : (size p : ℕ) → size * (p + 1) ≡ size * p + size
next_page size p = omega arith

more_pages : (size left : ℕ) → size * suc left ≡ size + size * left
more_pages size left = omega arith

abbrev pub files_path : Text → Text → ℕ → Text
files_path owner repo n = repo_path owner repo ++ codes "/pulls/" ++ show_nat n ++ codes "/files"

nothing_before : (size : ℕ) → size * 0 ≡ 0
nothing_before size = omega arith

module _ {A : Type 0} where
  -- The rows of a page, counted from zero.
  abbrev pub page_of : ℕ → ℕ → List A → List A
  page_of size p rows = take size (drop (size * p) rows)

  take_all : (n : ℕ) (xs : List A) → length xs ≤ n → take n xs ≡ xs
  take_all zero [] h = refl
  take_all zero (x ∷ xs) h = absurd (omega (arith, h))
  take_all (suc n) [] h = refl
  take_all (suc n) (x ∷ xs) h = ap (λ t. x ∷ t) (take_all n xs (omega (arith, h)))

  length-take_short : (n : ℕ) (xs : List A) → length (take n xs) < n → length xs < n
  length-take_short zero xs h = absurd (omega (arith, h))
  length-take_short (suc n) [] h = omega arith
  length-take_short (suc n) (x ∷ xs) h = omega (arith, length-take_short n xs (omega (arith, h)))

  take-nil : (n : ℕ) → take {A = A} n [] ≡ []
  take-nil zero = refl
  take-nil (suc n) = refl

  drop-nil : (n : ℕ) → drop {A = A} n [] ≡ []
  drop-nil zero = refl
  drop-nil (suc n) = refl

  take-add : (m n : ℕ) (xs : List A) → take (m + n) xs ≡ take m xs ++ take n (drop m xs)
  take-add zero n xs = ap (λ k. take k xs) (add_zero n)
  take-add (suc m) n [] = take-nil (suc m + n) ∙ sym (take-nil n)
  take-add (suc m) n (x ∷ xs) =
      ap (λ k. take k (x ∷ xs)) (add_suc m n) ∙ ap (λ t. x ∷ t) (take-add m n xs)

  drop-add : (m n : ℕ) (xs : List A) → drop (m + n) xs ≡ drop n (drop m xs)
  drop-add zero n xs = ap (λ k. drop k xs) (add_zero n)
  drop-add (suc m) n [] = drop-nil (suc m + n) ∙ sym (drop-nil n)
  drop-add (suc m) n (x ∷ xs) = ap (λ k. drop k (x ∷ xs)) (add_suc m n) ∙ drop-add m n xs

  module _ {W : Type 0} (fetch : ℕ → W → W × Result Error (List A)) (size max_pages : ℕ)
      (rows : List A)
      (serves : (p : ℕ) (w : W)
        → p < max_pages
        → (fetch (p + 1) w).1 ≡ ok (page_of size p rows)) where
    list_pages-serves :
        (left p : ℕ) (all : List A) (w : W)
        → left + p ≤ max_pages
        → (list_pages fetch size left (p + 1) all w).1
          ≡ ok (all ++ take (size * left) (drop (size * p) rows))
    unfolding list_pages
    list_pages-serves zero p all w h =
        let none_left : size * 0 ≡ 0 = omega arith in rw (none_left, append-nil all) refl
    list_pages-serves (suc left) p all w h =
        let behind = drop (size * p) rows in
        let chunk = page_of size p rows in
        let w' = (fetch (p + 1) w).0 in
        let ih = list_pages-serves left (p + 1) (all ++ chunk) w' (omega (arith, h)) in
        let served = serves p w (omega (arith, h)) in
        elim (Bool-cases (ltb (length chunk) size)) [
          | inl short ↦
              let few : length behind < size = length-take_short size behind (ltb→lt _ _ short) in
              let all_of_it : take (size * suc left) behind ≡ chunk =
                take_all (size * suc left) behind (omega (arith, few))
                ∙ sym (take_all size behind (omega (arith, few))) in
              rw (list_pages, served, short) (ap (λ t. ok (all ++ t)) (sym all_of_it))
          | inr whole ↦
              let next : drop (size * (p + 1)) rows ≡ drop size behind =
                ap (λ k. drop k rows) (next_page size p) ∙ drop-add (size * p) size rows in
              let longer : take (size * suc left) behind
                  ≡ chunk ++ take (size * left) (drop size behind) =
                ap (λ k. take k behind) (more_pages size left)
                ∙ take-add size (size * left) behind in
              let joined : all ++ chunk ++ take (size * left) (drop (size * (p + 1)) rows)
                  ≡ all ++ take (size * suc left) behind =
                append_assoc all chunk (take (size * left) (drop (size * (p + 1)) rows))
                ∙ ap (λ t. all ++ t) (ap (λ d. chunk ++ take (size * left) d) next ∙ sym longer) in
              rw (list_pages, served, whole) (ih ∙ ap ok joined)
        ]

-- A listing that ended with the first rows, at most so many.
abbrev pub IsListing : {A : Type 0} → ℕ → List A → Result Error (List A) → Type 0
IsListing {A = A} most rows answer =
    (kept rest : List A) × (answer ≡ ok kept)
    × (rows ≡ kept ++ rest)
    × ((rest ≡ []) ⊎ (length kept ≡ most))

take-IsListing :
    {A : Type 0} (most : ℕ) (rows : List A)
    → (rows ≡ take most rows ++ drop most rows)
      × ((drop most rows ≡ []) ⊎ (length (take most rows) ≡ most))
take-IsListing zero rows = (refl, inr refl)
take-IsListing (suc n) [] = (refl, inl refl)
take-IsListing (suc n) (x ∷ rows) =
    let (split, full) = take-IsListing n rows in
    (ap (λ t. x ∷ t) split, elim full [ inl e ↦ inl e | inr e ↦ inr (omega (arith, e)) ])

list_pages-IsListing :
    {W A : Type 0} (fetch : ℕ → W → W × Result Error (List A)) (size max_pages most : ℕ)
    (rows : List A)
    → size * max_pages ≡ most
    → ((p : ℕ) (w : W) → p < max_pages → (fetch (p + 1) w).1 ≡ ok (page_of size p rows))
    → (w : W) → IsListing most rows (list_pages fetch size max_pages 1 [] w).1
list_pages-IsListing fetch size max_pages most rows product serves w =
    let (split, full) = take-IsListing most rows in
    let none_before : drop (size * 0) rows ≡ rows = ap (λ k. drop k rows) (nothing_before size) in
    let listed =
      list_pages-serves fetch size max_pages rows serves max_pages 0 [] w (omega arith) in
    let answer : (list_pages fetch size max_pages 1 [] w).1 ≡ ok (take most rows) =
      listed
      ∙ ap (λ r. ok (take (size * max_pages) r)) none_before
      ∙ ap (λ k. ok (take k rows)) product in
    (take most rows, drop most rows, answer, split, full)

-- If the server gives the rows of a listing in pages of fifty, up to the hundredth, whatever was asked for before, the
-- listing of the changed files ends, without an error, with the first rows, each once and in
-- order: with all of them, or with five thousand.
pub list_changed_files-IsListing :
    {W : Type 0} (client : Client W) (decode : Text → Result Text (List ChangedFile))
    (owner repo : Text) (n : ℕ) (rows : List ChangedFile)
    → ((p : ℕ) (w : W)
        → p < 100
        → (json_get client decode (files_path owner repo n ++ page_query (p + 1)) w).1
          ≡ ok (page_of 50 p rows))
    → (w : W) → IsListing 5000 rows (list_changed_files client decode owner repo n w).1
unfolding list_changed_files list_all
list_changed_files-IsListing client decode owner repo n rows serves w =
    list_pages-IsListing
      (λ page. json_get client decode (files_path owner repo n ++ page_query page)) 50 100 5000 rows
      refl serves w
