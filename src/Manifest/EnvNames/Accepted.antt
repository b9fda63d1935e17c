-- ===== src/Manifest/EnvNames/Accepted.antt =====
-- What a name that may be set is not.
use secretov.Prelude.{
  ℕ, ◌+◌, ◌-◌, ◌≤◌, ◌<◌, ◌≡◌, refl, ap, sym, subst, ◌∙◌, Bool, true, false, ◌&&◌, ◌||◌, List, [],
  ◌∷◌, ◌++◌, ltb, map, take, drop, length, arith, ◌==◌, Bool-cases, ◌⊎◌, inl, inr, and_both,
  length-append, append_assoc, drop-append, length-take, take-append-drop,
}
use secretov.Prelude.Result.{ok}
use secretov.Prelude.Sorting.{mem_text}
use secretov.Prelude.Text.{Text, lit, text_eq, text_eq_refl, text_eq_iff, has_byte, starts_with}
use secretov.Manifest.EnvNames.{
  is_alpha, is_alnum, to_upper, all_identifier, is_identifier, denied_prefixes, denied_names,
  credential_names, ends_with, has_prefix_of, is_credential, is_proxy, is_denied_env_name,
  require_manifest_env_name,
}
use secretov.Manifest.EnvNames.Documented.{
  documented_prefixes, documented_names, IsCredential, cargo_registry, cargo_registries, uv_token,
  uv_password, uv_username, IsHarmless,
}

has_prefix_of_lem :
    (prefix : Text) (prefixes : List Text) (s : Text)
    → mem_text prefix prefixes ≡ true
    → starts_with prefix s ≡ true
    → has_prefix_of prefixes s ≡ true
unfolding has_prefix_of
has_prefix_of_lem prefix [] s m h = cc
has_prefix_of_lem prefix (p ∷ prefixes) s m h =
    ground (arith, h, m, text_eq_iff p prefix, has_prefix_of_lem prefix prefixes s)

no_byte :
    (b : ℕ) (s : Text)
    → (is_alnum b || b == b'_') ≡ false
    → all_identifier s ≡ true
    → has_byte b s ≡ false
unfolding has_byte all_identifier
no_byte b [] n h = refl
no_byte b (c ∷ s) n h = elim (Bool-cases (c == b)) [
  | inl e ↦ let same : c ≡ b = ground arith in absurd (ground (arith, n, h, ap is_alnum same))
  | inr e ↦ ground (arith, e, n, h, no_byte b s n)
]

identifier-all : (s : Text) → is_identifier s ≡ true → all_identifier s ≡ true
unfolding is_identifier
identifier-all [] h = cc
identifier-all (c ∷ s) h = ground arith

-- Every name of a list is on another.
abbrev all_in : List Text → List Text → Bool
all_in [] all = true
all_in (x ∷ xs) all = mem_text x all && all_in xs all

mem_text-all_in :
    (x : Text) (xs all : List Text)
    → all_in xs all ≡ true
    → mem_text x xs ≡ true
    → mem_text x all ≡ true
mem_text-all_in x [] all h m = cc
mem_text-all_in x (y ∷ ys) all h m = elim (Bool-cases (text_eq y x)) [
  | inl e ↦
      let same : y ≡ x = (text_eq_iff y x).0 e in
      subst (λ z. mem_text z all ≡ true) same (ground (arith, h))
  | inr e ↦ mem_text-all_in x ys all (ground (arith, h)) (ground (arith, m, e))
]

names_denied : all_in documented_names denied_names ≡ true
unfolding lit text_eq
names_denied = refl

prefixes_denied : all_in documented_prefixes denied_prefixes ≡ true
unfolding lit text_eq
prefixes_denied = refl

starts_with-append : (prefix rest : Text) → starts_with prefix (prefix ++ rest) ≡ true
unfolding starts_with
starts_with-append [] rest = refl
starts_with-append (p ∷ ps) rest = ground (arith, starts_with-append ps rest)

ends_with-append : (front suffix : Text) → ends_with suffix (front ++ suffix) ≡ true
unfolding ends_with
ends_with-append front suffix =
    rw
      (drop-append (length (front ++ suffix) - length suffix) front suffix
        (omega (arith, length-append front suffix)))
      (text_eq_refl suffix)

-- The text behind a prefix, and the text before a suffix.
behind : (prefix s : Text) → starts_with prefix s ≡ true → (rest : Text) × (s ≡ prefix ++ rest)
unfolding starts_with
behind [] s h = (s, refl)
behind (p ∷ ps) [] h = cc
behind (p ∷ ps) (c ∷ s) h =
    let (rest, e) = behind ps s (ground (arith, h)) in
    let same : c ≡ p = ground (arith, h) in (rest, ap (◌∷◌ c) e ∙ ap (λ d. d ∷ (ps ++ rest)) same)

before :
    (suffix s : Text)
    → ends_with suffix s ≡ true
    → (front : Text) × (s ≡ front ++ suffix) × (length front ≡ length s - length suffix)
unfolding ends_with
before suffix s h =
    let n = length s - length suffix in
    let same : drop n s ≡ suffix = (text_eq_iff (drop n s) suffix).0 h in
    (
      take n s,
      sym (take-append-drop n s) ∙ ap (λ (t : Text). take n s ++ t) same,
      omega (arith, length-take n s),
    )

-- Where two texts are cut in two places, there is a text between them.
text_between :
    (a b c d : Text)
    → a ++ b ≡ c ++ d
    → length a < length c
    → (middle : Text) × (c ≡ a ++ middle) × (0 < length middle)
text_between [] b c d h n = (c, refl, n)
text_between (x ∷ xs) b [] d h n = absurd (omega (arith, n))
text_between (x ∷ xs) b (y ∷ ys) d h n =
    let (middle, e, m) = text_between xs b ys d (cc h) (omega (arith, n)) in
    let same : y ≡ x = cc h in (middle, ap (◌∷◌ y) e ∙ ap (λ z. z ∷ (xs ++ middle)) same, m)

registries-IsCredential :
    (upper : Text)
    → length (lit "CARGO_REGISTRIES_") + length (lit "_TOKEN") < length upper
    → starts_with (lit "CARGO_REGISTRIES_") upper ≡ true
    → ends_with (lit "_TOKEN") upper ≡ true
    → IsCredential upper
registries-IsCredential upper long front back =
    let (rest, e) = behind (lit "CARGO_REGISTRIES_") upper front in
    let (first, f, n) = before (lit "_TOKEN") upper back in
    let (name, g, m) =
      text_between (lit "CARGO_REGISTRIES_") rest first (lit "_TOKEN") (sym e ∙ f)
        (omega (arith, long, n)) in
    subst IsCredential
      (sym (
        f
        ∙ ap (λ (t : Text). t ++ lit "_TOKEN") g
        ∙ append_assoc (lit "CARGO_REGISTRIES_") name (lit "_TOKEN")))
      (cargo_registries name m)

listed-IsCredential : (upper : Text) → mem_text upper credential_names ≡ true → IsCredential upper
listed-IsCredential upper h = elim (Bool-cases (text_eq (lit "CARGO_REGISTRY_TOKEN") upper)) [
  | inl e ↦ subst IsCredential ((text_eq_iff _ upper).0 e) cargo_registry
  | inr e ↦ elim (Bool-cases (text_eq (lit "UV_PUBLISH_TOKEN") upper)) [
    | inl f ↦ subst IsCredential ((text_eq_iff _ upper).0 f) uv_token
    | inr f ↦ elim (Bool-cases (text_eq (lit "UV_PUBLISH_PASSWORD") upper)) [
      | inl g ↦ subst IsCredential ((text_eq_iff _ upper).0 g) uv_password
      | inr g ↦ elim (Bool-cases (text_eq (lit "UV_PUBLISH_USERNAME") upper)) [
        | inl k ↦ subst IsCredential ((text_eq_iff _ upper).0 k) uv_username
        | inr k ↦ cc (rw (e, f, g, k) at h)
      ]
    ]
  ]
]

is_credential-IsCredential : (upper : Text) → is_credential upper ≡ true → IsCredential upper
unfolding is_credential
is_credential-IsCredential upper h = elim (Bool-cases (mem_text upper credential_names)) [
  | inl e ↦ listed-IsCredential upper e
  | inr e ↦
      let (long, ends) =
        and_both (ltb (length (lit "CARGO_REGISTRIES_") + length (lit "_TOKEN")) (length upper)) _
          (rw (is_credential, e) at h) in
      let (front, back) =
        and_both (starts_with (lit "CARGO_REGISTRIES_") upper) (ends_with (lit "_TOKEN") upper)
          ends in
      registries-IsCredential upper (ground (arith, long)) front back
]

is_proxy-no_proxy :
    (upper front : Text)
    → is_proxy upper ≡ false
    → upper ≡ front ++ lit "_PROXY"
    → upper ≡ lit "NO_PROXY"
unfolding is_proxy
is_proxy-no_proxy upper front h e =
    let ends : ends_with (lit "_PROXY") upper ≡ true =
      subst (λ t. ends_with (lit "_PROXY") t ≡ true) (sym e)
        (ends_with-append front (lit "_PROXY")) in
    let long : length (lit "_PROXY") ≤ length upper =
      omega (arith, ap (λ (t : Text). length t) e, length-append front (lit "_PROXY")) in
    elim (Bool-cases (text_eq upper (lit "NO_PROXY"))) [
      | inl f ↦ (text_eq_iff upper _).0 f
      | inr f ↦ absurd (ground (arith, h, f, ends, long))
    ]

harmless :
    (name : Text)
    → is_denied_env_name name ≡ false
    → IsCredential (map to_upper name) ⊎ IsHarmless (map to_upper name)
unfolding is_denied_env_name
harmless name h =
    let upper = map to_upper name in
    elim (Bool-cases (is_credential upper)) [
      | inl c ↦ inl (is_credential-IsCredential upper c)
      | inr c ↦ elim (Bool-cases (has_prefix_of denied_prefixes upper)) [
        | inl p ↦ cc (rw (c, p, is_denied_env_name) at h)
        | inr p ↦ elim (Bool-cases (mem_text upper denied_names)) [
          | inl m ↦ cc (rw (c, p, m, is_denied_env_name) at h)
          | inr m ↦ inr (record {
            not_named = λ denied k e.
                let listed = mem_text-all_in denied documented_names denied_names names_denied k in
                cc (m, subst (λ t. mem_text t denied_names ≡ true) (sym e) listed);
            no_prefix = λ prefix rest k e.
                let listed =
                  mem_text-all_in prefix documented_prefixes denied_prefixes prefixes_denied k in
                let starts : starts_with prefix upper ≡ true =
                  subst (λ t. starts_with prefix t ≡ true) (sym e)
                    (starts_with-append prefix rest) in
                cc (p, has_prefix_of_lem prefix denied_prefixes upper listed starts);
            no_proxy =
                λ front e. is_proxy-no_proxy upper front (rw (c, p, m, is_denied_env_name) at h) e;
          })
        ]
      ]
    ]

-- A name that a manifest may set holds no '=' and no '/'. In upper case, it is one of the
-- credentials that USING.md excepts: CARGO_REGISTRY_TOKEN, CARGO_REGISTRIES_<NAME>_TOKEN,
-- UV_PUBLISH_TOKEN, UV_PUBLISH_PASSWORD and UV_PUBLISH_USERNAME. Or it is none of the names that
-- USING.md lists as denied, starts with none of the prefixes listed there, and does not end in
-- "_PROXY", unless it is NO_PROXY.
pub require_manifest_env_name_lem :
    (name path what : Text)
    → require_manifest_env_name name path what ≡ ok tt
    → (has_byte b'=' name ≡ false)
      × (has_byte b'/' name ≡ false)
      × (IsCredential (map to_upper name) ⊎ IsHarmless (map to_upper name))
unfolding require_manifest_env_name is_alnum is_alpha
require_manifest_env_name_lem name path what h =
    let (i, d) : (is_identifier name ≡ true) × (is_denied_env_name name ≡ false) =
      ground (arith, h) in
    let all = identifier-all name i in
    (no_byte b'=' name refl all, no_byte b'/' name refl all, harmless name d)
