-- ===== src/Gateway/Latency/Metrics/Labels.antt =====
-- Labels that are written as `key="value"`, joined by commas, are read back.
use lumen_mcp_server.Base.{
  ℕ, String, false, Option, none, some, List, [], ◌∷◌, map, Bool-cases, if◌then◌else◌, ◌==◌, ◌<>◌,
  lookup, assign, trim_space, split, ◌≡◌, ◌≢◌, inl, inr, refl, sym, ap, ◌∙◌, eq_iff, All, is_space,
  AllChars, IsNot, AllChars-append, AllChars-map, trim_space-fits, trim_space_solid,
  cut_first-append, split_whole, split-append, trim_char-quoted, cut_first, lookup-assign_other,
  lookup-assign_same,
}
use text.Mathlib.TextLemmas.{cons-append, append_assoc, cons≢nil}
use lumen_mcp_server.Gateway.Latency.Metrics.{add_pair, add_label, add_labels, parse_labels}

-- A character of a label's key: no space, comma or equals sign.
abbrev pub IsKeyChar : ℕ → Type 0
IsKeyChar c = (is_space c ≡ false) × IsNot b',' c × IsNot b'=' c

-- A character of a label's value: no comma or quote.
abbrev pub IsValueChar : ℕ → Type 0
IsValueChar c = IsNot b',' c × IsNot b'"' c

abbrev pub IsLabel : String × String → Type 0
IsLabel (key, value) = (key ≢ "") × AllChars IsKeyChar key × AllChars IsValueChar value

-- what stands behind the key
abbrev pub quoted : String → String
quoted value = String.◌∷◌ "\"" (value <> "\"")

unfoldable pub render_label : String × String → String
render_label (key, value) = key <> String.◌∷◌ "=" (quoted value)

unfoldable pub render : List (String × String) → String
unfolding render_label
render [] = ""
render (l ∷ []) = render_label l
render (l ∷ m ∷ ls) = render_label l <> String.◌∷◌ "," (render (m ∷ ls))

-- No two labels have the same key.
abbrev pub HasDistinctKeys : List (String × String) → Type 0
HasDistinctKeys [] = Unit
HasDistinctKeys (l ∷ ls) = (lookup l.0 ls ≡ none) × HasDistinctKeys ls

render_label-AllChars : (l : String × String) → IsLabel l → AllChars (IsNot b',') (render_label l)
unfolding render_label
render_label-AllChars (key, value) (named, keys, values) =
    AllChars-append (IsNot b',') key (String.◌∷◌ "=" (quoted value))
      (AllChars-map IsKeyChar (IsNot b',') key (λ c h. h.1) keys)
      (
        refl,
        (
          refl,
          AllChars-append (IsNot b',') value "\""
              (AllChars-map IsValueChar (IsNot b',') value (λ c h. h.0) values) (refl, tt),
        ),
      )

ends_quoted :
    (key value : String)
    → (key <> String.◌∷◌ "=" (quoted value))
      ≡ ((key <> String.◌∷◌ "=" (String.◌∷◌ "\"" value)) <> "\"")
ends_quoted key value = rw (append_assoc, cons-append, cons-append) refl

trim_space-render : (l : String × String) → IsLabel l → trim_space (render_label l) ≡ render_label l
unfolding render_label is_space
trim_space-render (String.[], value) (named, keys, values) = absurd (named refl)
trim_space-render (String.◌∷◌ c key, value) (named, (solid, keys), values) =
    rw (cons-append, ends_quoted key value)
      (trim_space-fits c (key <> String.◌∷◌ "=" (String.◌∷◌ "\"" value)) "\"" solid.0 refl)

render_label-named : (l : String × String) → IsLabel l → (render_label l == "") ≡ false
unfolding render_label
render_label-named (String.[], value) (named, keys, values) = absurd (named refl)
render_label-named (String.◌∷◌ c key, value) h =
    elim (Bool-cases ((String.◌∷◌ c key <> String.◌∷◌ "=" (quoted value)) == "")) [
      | inl blank ↦ absurd (
          cons≢nil (
            sym (cons-append c key (String.◌∷◌ "=" (quoted value)))
            ∙ (eq_iff (String.◌∷◌ c key <> String.◌∷◌ "=" (quoted value)) "").0 blank))
      | inr named ↦ named
    ]

add_label-render :
    (labels : List (String × String)) (l : String × String)
    → IsLabel l
    → add_label labels (render_label l) ≡ assign l.0 l.1 labels
unfolding add_label add_pair render_label cut_first assign
add_label-render labels (key, value) h =
    rw
      (
        trim_space-render (key, value) h,
        render_label-named (key, value) h,
        render_label,
        cut_first-append b'=' key "=" (quoted value)
            (AllChars-map IsKeyChar (IsNot b'=') key (λ c k. k.2) h.1) refl,
        add_pair,
        trim_space_solid key
            (AllChars-map IsKeyChar (λ c. is_space c ≡ false) key (λ c k. k.0) h.1),
        trim_char-quoted b'"' value "\""
            (AllChars-map IsValueChar (IsNot b'"') value (λ c k. k.1) h.2) refl,
      )
      refl

split-render :
    (l : String × String) (ls : List (String × String))
    → All IsLabel (l ∷ ls)
    → split b',' (render (l ∷ ls)) ≡ map render_label (l ∷ ls)
unfolding render
split-render l [] (h, hs) = split_whole b',' (render_label l) (render_label-AllChars l h)
split-render l (m ∷ ls) (h, hs) =
    split-append b',' (render_label l) "," (render (m ∷ ls)) (render_label-AllChars l h) refl
    ∙ ap (λ x. render_label l ∷ x) (split-render m ls hs)

-- The value of a key in labels that are added to some others.
abbrev later_or : Option String → Option String → Option String
later_or old none = old
later_or old (some value) = some value

resolve :
    (key k v : String) (labels ls : List (String × String))
    → lookup k ls ≡ none
    → later_or (lookup key (assign k v labels)) (lookup key ls)
      ≡ later_or (lookup key labels) (lookup key ((k, v) ∷ ls))
unfolding lookup
resolve key k v labels ls fresh = elim (Bool-cases (k == key)) [
  | inl same ↦
      let e : k ≡ key = (eq_iff k key).0 same in
      let none_left : lookup key ls ≡ none = rw e at fresh in
      let set : lookup key (assign k v labels) ≡ some v =
        ap (λ x. lookup x (assign k v labels)) (sym e) ∙ lookup-assign_same k v labels in
      cc (
        ap (λ o. later_or (lookup key (assign k v labels)) o) none_left,
        set,
        ap (λ b. later_or (lookup key labels) (if b then some v else lookup key ls)) same,
      )
  | inr other ↦
      ap (λ o. later_or o (lookup key ls)) (lookup-assign_other key k v labels other)
      ∙ ap (λ b. later_or (lookup key labels) (if b then some v else lookup key ls)) (sym other)
]

lookup-add_labels :
    (key : String) (labels ls : List (String × String))
    → All IsLabel ls
    → HasDistinctKeys ls
    → lookup key (add_labels labels (map render_label ls))
      ≡ later_or (lookup key labels) (lookup key ls)
unfolding add_labels lookup
lookup-add_labels key labels [] all distinct = refl
lookup-add_labels key labels (l ∷ ls) (h, all) (fresh, distinct) =
    ap (λ m. lookup key (add_labels m (map render_label ls))) (add_label-render labels l h)
    ∙ lookup-add_labels key (assign l.0 l.1 labels) ls all distinct
    ∙ resolve key l.0 l.1 labels ls fresh

later_or-none : (o : Option String) → later_or none o ≡ o
later_or-none none = refl
later_or-none (some v) = refl

nothing : (key : String) → lookup key (parse_labels (render [])) ≡ lookup {V = String} key []
unfolding parse_labels render add_label split trim_space lookup
nothing key = refl

unset_first :
    (key : String) (ls : List (String × String))
    → later_or (lookup {V = String} key []) (lookup key ls) ≡ lookup key ls
unfolding lookup
unset_first key ls = later_or-none (lookup key ls)

-- Labels with distinct keys, whose keys have no spaces, commas or equals signs and whose values have
-- no commas or quotes, are read back from their text, each key with its value.
pub parse_labels-render :
    (ls : List (String × String)) (key : String)
    → All IsLabel ls
    → HasDistinctKeys ls
    → lookup key (parse_labels (render ls)) ≡ lookup key ls
unfolding parse_labels
parse_labels-render [] key all distinct = nothing key
parse_labels-render (l ∷ ls) key all distinct =
    rw (split-render l ls all)
      (lookup-add_labels key [] (l ∷ ls) all distinct ∙ unset_first key (l ∷ ls))
