-- ===== src/Cinp/Request/Auth.antt =====
-- `setAuth`.
use disks.Cinp.Json.{Json}
use disks.Cinp.Request.{Session, delete_at, drop_auth, is_auth_header, names_auth, set_auth}
use disks.Prelude.{
  Bool, String, [], ap, false, get_elem?, if◌then◌else◌, length, nat_key, none, not, option_key,
  refl, select, some, string_key, suc, true, zero, ℕ, ◌∙◌, ◌∷◌, ◌≡◌,
}
use disks.Prelude.Dict.{Dict}

drop_auth-cons :
    (n : ℕ) (x : String × Json) (headers : Dict String Json)
    → drop_auth (suc n) (x ∷ headers) ≡ drop_auth 1 (x ∷ drop_auth n headers)
unfolding drop_auth delete_at
drop_auth-cons zero x headers = refl
drop_auth-cons (suc n) x headers = go (drop_auth-cons n x) (names_auth (get_elem? headers n))
  where
    go :
        ((l : Dict String Json) → drop_auth (suc n) (x ∷ l) ≡ drop_auth 1 (x ∷ drop_auth n l))
        → (b : Bool)
        → drop_auth (suc n) (if b then x ∷ delete_at n headers else x ∷ headers)
          ≡ drop_auth 1 (x ∷ drop_auth n (if b then delete_at n headers else headers))
    go ih true = ih (delete_at n headers)
    go ih false = ih headers

drop_auth-select :
    (headers : Dict String Json)
    → drop_auth (length headers) headers ≡ select (λ header. not (is_auth_header header.0)) headers
unfolding drop_auth delete_at
drop_auth-select [] = refl
drop_auth-select (x ∷ headers) =
    drop_auth-cons (length headers) x headers
    ∙ ap (λ l. drop_auth 1 (x ∷ l)) (drop_auth-select headers)
    ∙ go (is_auth_header x.0)
  where
    rest : Dict String Json
    rest = select (λ header. not (is_auth_header header.0)) headers

    go : (b : Bool) → (if b then rest else x ∷ rest) ≡ (if not b then x ∷ rest else rest)
    go true = refl
    go false = refl

-- `setAuth` with no id, or an empty one, takes out exactly the headers with the id and the token,
-- however often they were set, and leaves the others in their order.
pub set_auth-select :
    (auth_token : Json) (s : Session)
    → ((set_auth none auth_token s).addheaders
        ≡ select (λ header. not (is_auth_header header.0)) s.addheaders)
      × (set_auth (some []) auth_token s ≡ set_auth none auth_token s)
unfolding set_auth
set_auth-select auth_token s = (drop_auth-select s.addheaders, refl)
