-- ===== src/Cinp/Uri/Reading.antt =====
-- What the groups of the expression are on a text that `build` has put together.
use disks.Cinp.Uri.{is_id, is_word, read_action, read_ids, read_names}
use disks.Cinp.Words.{IsOf, IsOf-All, Text, is_nil, join_text}
use disks.Prelude.{
  All, List, [], ap, false, if◌then◌else◌, nat_key, not, option_key, refl, some, string_key, sym,
  true, ◌++◌, ◌==◌, ◌∙◌, ◌∷◌, ◌≡◌,
}
use mathlib.Core.List.{append-nil, append_assoc}

-- A name of a namespace or of a model, and an id.
abbrev pub IsName : Text → Type 0
IsName = IsOf is_word

abbrev pub IsId : Text → Type 0
IsId = IsOf is_id

-- Nothing follows, or a character that no name goes on with.
abbrev pub Stops : Text → Type 0
Stops [] = Unit
Stops (c ∷ s) = (is_word c ≡ false) × ((c == b'/') ≡ false)

read_names-word :
    (closed : List Text) (name w s : Text)
    → All (λ c. is_word c ≡ true) w
    → read_names closed name (w ++ s) ≡ read_names closed (name ++ w) s
unfolding read_names
read_names-word closed name [] s h = rw append-nil refl
read_names-word closed name (c ∷ w) s h =
    rw (h.0) (read_names-word closed (name ++ c ∷ []) w s h.1 ∙ rw append_assoc refl)

slash_word : is_word b'/' ≡ false
unfolding is_word
slash_word = refl

read_names-close :
    (closed : List Text) (name s : Text)
    → IsName name
    → read_names closed [] (name ++ b'/' ∷ s) ≡ read_names (closed ++ name ∷ []) [] s
unfolding read_names
read_names-close closed name s h =
    read_names-word closed [] name (b'/' ∷ s) (IsOf-All is_word name h)
    ∙ rw slash_word (filled name h)
  where
    filled :
        (name : Text)
        → IsName name
        → (if not (is_nil name)
            then read_names (closed ++ name ∷ []) [] s
            else (closed, name, b'/' ∷ s))
          ≡ read_names (closed ++ name ∷ []) [] s
    filled [] h = absurd h
    filled (c ∷ w) h = refl

-- the names of a namespace, each with its slash
pub read_names-namespace :
    (closed : List Text) (n : Text) (ns : List Text) (s : Text)
    → IsName n
    → All IsName ns
    → read_names closed [] (join_text b'/' (n ∷ ns) ++ b'/' ∷ s)
      ≡ read_names (closed ++ n ∷ ns) [] s
unfolding join_text
read_names-namespace closed n [] s h hs = read_names-close closed n s h
read_names-namespace closed n (m ∷ ns) s h hs =
    ap (read_names closed []) (append_assoc n (b'/' ∷ join_text b'/' (m ∷ ns)) (b'/' ∷ s))
    ∙ read_names-close closed n (join_text b'/' (m ∷ ns) ++ b'/' ∷ s) h
    ∙ read_names-namespace (closed ++ n ∷ []) m ns s hs.0 hs.1
    ∙ ap (λ l. read_names l [] s) (append_assoc closed (n ∷ []) (m ∷ ns))

pub read_names-stop :
    (closed : List Text) (name s : Text) → Stops s → read_names closed name s ≡ (closed, name, s)
unfolding read_names
read_names-stop closed name [] h = refl
read_names-stop closed name (c ∷ s) h = rw (h.0) (rw (h.1) refl)

-- the name behind the namespace
pub read_names-model :
    (closed : List Text) (model s : Text)
    → All (λ c. is_word c ≡ true) model
    → Stops s
    → read_names closed [] (model ++ s) ≡ (closed, model, s)
read_names-model closed model s h stops =
    read_names-word closed [] model s h ∙ read_names-stop closed model s stops

read_ids-word :
    (closed id w s : Text)
    → All (λ c. is_id c ≡ true) w
    → read_ids closed id (w ++ s) ≡ read_ids closed (id ++ w) s
unfolding read_ids
read_ids-word closed id [] s h = rw append-nil refl
read_ids-word closed id (c ∷ w) s h =
    rw (h.0) (read_ids-word closed (id ++ c ∷ []) w s h.1 ∙ rw append_assoc refl)

colon_id : is_id b':' ≡ false
unfolding is_id is_word
colon_id = refl

read_ids-close :
    (closed id s : Text)
    → All (λ c. is_id c ≡ true) id
    → read_ids closed [] (id ++ b':' ∷ s) ≡ read_ids (closed ++ id ++ b':' ∷ []) [] s
unfolding read_ids
read_ids-close closed id s h = read_ids-word closed [] id (b':' ∷ s) h ∙ rw colon_id refl

-- Nothing follows the ids, or the parenthesis of an action.
abbrev pub Opens : Text → Type 0
Opens [] = Unit
Opens (c ∷ s) = c ≡ b'('

read_ids-stop : (closed s : Text) → Opens s → read_ids closed [] s ≡ some (closed, s)
unfolding read_ids is_id is_word
read_ids-stop closed [] h = refl
read_ids-stop closed (c ∷ s) h = rw h refl

-- the ids, each with its colon
pub read_ids-ids :
    (closed i : Text) (is : List Text) (s : Text)
    → All (λ c. is_id c ≡ true) i
    → All (All (λ c. is_id c ≡ true)) is
    → Opens s
    → read_ids closed [] (join_text b':' (i ∷ is) ++ b':' ∷ s)
      ≡ some (closed ++ join_text b':' (i ∷ is) ++ b':' ∷ [], s)
unfolding join_text
read_ids-ids closed i [] s h hs opens = read_ids-close closed i s h ∙ read_ids-stop _ s opens
read_ids-ids closed i (j ∷ is) s h hs opens =
    let rest = join_text b':' (j ∷ is) in
    ap (read_ids closed []) (append_assoc i (b':' ∷ rest) (b':' ∷ s))
    ∙ read_ids-close closed i (rest ++ b':' ∷ s) h
    ∙ read_ids-ids (closed ++ i ++ b':' ∷ []) j is s hs.0 hs.1 opens
    ∙ ap (λ t. some (t, s)) (simp append_assoc)

-- the action in its parentheses
pub read_action-word :
    (action w : Text)
    → All (λ c. is_word c ≡ true) w
    → is_nil (action ++ w) ≡ false
    → read_action action (w ++ b')' ∷ []) ≡ some (action ++ w)
unfolding read_action is_word
read_action-word action [] h filled =
    rw (ap is_nil (sym (append-nil action)) ∙ filled) (ap some (sym (append-nil action)))
read_action-word action (c ∷ w) h filled =
    let grown = append_assoc action (c ∷ []) w in
    rw (h.0) (read_action-word (action ++ c ∷ []) w h.1 (ap is_nil grown ∙ filled) ∙ ap some grown)
