-- ===== src/Tests/Forgejo.antt =====
-- crates/ar-forgejo/src/client.rs: its theorem at a concrete input.
use auto_review.Prelude.{
  ℕ, zero, suc, ◌+◌, ◌-◌, ◌*◌, ◌<◌, ◌≡◌, refl, sym, ap, ◌∙◌, List, [], ◌∷◌, ◌++◌, Result, ok, take,
  drop, arith,
}
use auto_review.Prelude.Text.{Text, codes}
use auto_review.Forge.{ChangedFile}
use auto_review.Forgejo.Client.{
  Client, json_get, request, url, joined, sent, decode_body, text_body, is_success, decoded,
  page_query, list_changed_files,
}
use auto_review.Forgejo.Client.Pages.{IsListing, page_of, files_path, list_changed_files-IsListing}
use auto_review.Tests.Fixtures.{changed_file}

unfoldable replicate : ℕ → List ChangedFile
replicate zero = []
replicate (suc n) = changed_file ∷ replicate n

plus_zero : (n : ℕ) → 0 + n ≡ n
plus_zero n = omega arith

plus_suc : (m n : ℕ) → suc m + n ≡ suc (m + n)
plus_suc m n = omega arith

drop-replicate : (m n : ℕ) → drop m (replicate (m + n)) ≡ replicate n
unfolding replicate
drop-replicate zero n = ap replicate (plus_zero n)
drop-replicate (suc m) n = ap (λ k. drop (suc m) (replicate k)) (plus_suc m n) ∙ drop-replicate m n

take-replicate : (m n : ℕ) → take m (replicate (m + n)) ≡ replicate m
unfolding replicate
take-replicate zero n = refl
take-replicate (suc m) n =
    ap (λ k. take (suc m) (replicate k)) (plus_suc m n)
    ∙ ap (λ t. changed_file ∷ t) (take-replicate m n)

full_page :
    (size p left most : ℕ)
    → most ≡ size * p + (size + left)
    → page_of size p (replicate most) ≡ replicate size
full_page size p left most e =
    ap (λ k. take size (drop (size * p) (replicate k))) e
    ∙ ap (take size) (drop-replicate (size * p) (size + left))
    ∙ take-replicate size left

-- A server whose every page is a full one.
abbrev client : Client ℕ
client = record {
  base = codes "https://f/";
  join = λ base path. ok (base ++ path);
  send = λ req w. (suc w, ok (record { status = 200; body = ok (codes "[..]") }));
}

abbrev decode : Text → Result Text (List ChangedFile)
decode body = ok (replicate 50)

serves :
    (p w : ℕ)
    → p < 100
    → (json_get client decode (files_path (codes "o") (codes "r") 7 ++ page_query (p + 1)) w).1
      ≡ ok (page_of 50 p (replicate 5000))
unfolding json_get request url joined sent decode_body text_body is_success decoded
serves p w h = ap ok (sym (full_page 50 p (4950 - 50 * p) 5000 (omega (arith, h))))

list_changed_files-IsListing_example :
    IsListing 5000 (replicate 5000) (list_changed_files client decode (codes "o") (codes "r") 7 0).1
list_changed_files-IsListing_example =
    list_changed_files-IsListing client decode (codes "o") (codes "r") 7 (replicate 5000) serves 0
