-- ===== src/Storage/S3/Pages.antt =====
-- internal/storage/s3.go: listing page by page.
use deb_s3_go.Base.{
  ℕ, zero, suc, ◌≤◌, true, false, List, [], ◌∷◌, ◌++◌, append_assoc, Option, none, some, Bytes, ok,
  ◌≡◌, refl, ◌∙◌, arith,
}
use deb_s3_go.Storage.Objects.{ObjectInfo}
use deb_s3_go.Storage.Service.{ListedObject, ListObjectsOutput, Client, done}
use deb_s3_go.Storage.S3.{
  S3Store, answered, page_objects, after_page, on_page, list_pages, list_prefix, list,
}

module _ {W : Type 0} (client : Client W) (s : S3Store) (prefix : Bytes) (w : W) where
  -- The service answers from a token on with so many pages, of these objects together. An answer
  -- that is cut off names the token of the next.
  pub data Pages : Option Bytes → List ListedObject → ℕ → Type 0 where
    last :
        (token : Option Bytes) (o : ListObjectsOutput)
        → client.list_objects
            (record { bucket = s.bucket; prefix = prefix; continuation_token = token })
            w
          ≡ done o
        → answered false o.is_truncated ≡ false
        → Pages token o.contents 1
    more :
        (token : Option Bytes) (o : ListObjectsOutput) (c : ℕ) (next : Bytes)
        (rest : List ListedObject) (n : ℕ)
        → client.list_objects
            (record { bucket = s.bucket; prefix = prefix; continuation_token = token })
            w
          ≡ done o
        → answered false o.is_truncated ≡ true
        → o.next_continuation_token ≡ some (c ∷ next)
        → Pages (some (c ∷ next)) rest n
        → Pages token (o.contents ++ rest) (suc n)

module _ {W : Type 0} (client : Client W) (digest escape : Bytes → Bytes) (s : S3Store) where
  page_objects-append :
      (xs ys : List ListedObject)
      → page_objects client digest escape s (xs ++ ys)
        ≡ page_objects client digest escape s xs ++ page_objects client digest escape s ys
  unfolding page_objects
  page_objects-append [] ys = refl
  page_objects-append (x ∷ xs) ys = simp (page_objects-append xs ys, append_assoc)

  list_pages-Pages :
      (prefix : Bytes) (w : W) (token : Option Bytes) (all : List ListedObject) (n : ℕ)
      → Pages client s prefix w token all n
      → (fuel : ℕ) (objects : List ObjectInfo) → n ≤ fuel
      → list_pages client digest escape fuel s prefix token objects w
        ≡ some (ok (objects ++ page_objects client digest escape s all))
  unfolding list_pages on_page after_page
  list_pages-Pages prefix w token all n (Pages.last _ o e t) zero objects h = absurd (omega arith)
  list_pages-Pages prefix w token all n (Pages.more _ o c next rest m e t k p) zero objects h =
      absurd (omega arith)
  list_pages-Pages prefix w token all n (Pages.last _ o e t) (suc fuel) objects h =
      rw (e, on_page, t, after_page) refl
  list_pages-Pages prefix w token all n (Pages.more _ o c next rest m e t k p) (suc fuel) objects
        h =
      rw (e, on_page, t, k, after_page)
        (list_pages-Pages prefix w (some (c ∷ next)) rest m p fuel _ (omega arith)
          ∙ simp (page_objects-append o.contents rest, append_assoc))

  -- `List` ends and returns the objects below the store's prefix, those of all pages in the order of
  -- the pages, when the service answers with so many pages, from the first on, and the fuel allows for
  -- as many.
  pub list-Pages :
      (prefix physical : Bytes) (w : W) (all : List ListedObject) (n fuel : ℕ)
      → list_prefix client digest escape s prefix ≡ ok physical
      → Pages client s physical w none all n
      → n ≤ fuel
      → list client digest escape fuel s prefix w
        ≡ some (ok (page_objects client digest escape s all))
  unfolding list
  list-Pages prefix physical w all n fuel e p h =
      rw e (list_pages-Pages physical w none all n p fuel [] h)
