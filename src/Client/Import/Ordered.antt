-- ===== src/Client/Import/Ordered.antt =====
-- An import changes nothing before all its checks have passed, and then stores the pairs in order.
use secretov.Prelude.{
  arith, ap, ◌≡◌, refl, none, some, Bool, true, false, not, ◌&&◌, ◌⊎◌, subst, List, [], inl, inr,
  Bool-cases, Option-cases, is_nil, if◌then◌else◌,
}
use secretov.Prelude.Map.{Map}
use secretov.Prelude.Result.{
  throw_if-ok, Result, ok, err, bind-eq-ok, Result-cases, throw_if, ok_inj,
}
use secretov.Prelude.Text.{Text, text_eq, text_eq→eq}
use secretov.Client.Import.{
  Import, Imported, Server, collisions, to_itself, check_all, set_all, checked_text, write_back,
  import_pairs, import, import_parsed, warned,
}
use secretov.Client.Import.Sets.{
  AllSendable, SetsInOrder, check_all-AllSendable, set_all-SetsInOrder,
}
use secretov.Files.{read_file_string, write_file_atomic}
use secretov.Io.{World, outcome-cases}
use secretov.Manifest.Dotenv.{parse_dotenv}
use secretov.Manifest.Edit.{manifest_with_entries}
use secretov.Manifest.Parse.{KeyValues}
use secretov.Manifest.Scopes.{scope_prefix}
use secretov.Manifest.Yaml.{Yaml}
use secretov.Platform.{Platform}

module _ (p : Platform) (y : Yaml) {σ : Type 0} (server : Server σ) (i : Import) where
  -- All that is known before the first set: there is something to import, what the daemon lists
  -- for the scope holds none of its keys unless they may be replaced, each request can be sent,
  -- the edited manifest was parsed and found right, and its directory was vetted if it changes.
  pub record IsReady (pairs : KeyValues) (s : σ) (new_text : Text) : Type 0 where
    prefix : Text
    existing : Map Text
    present : List Text
    something : is_nil pairs ≡ false
    prefixed : scope_prefix i.env i.base.project ≡ ok prefix
    listed : server.get_prefix prefix s ≡ ok existing
    collided : collisions i.env i.base.project existing pairs ≡ ok present
    allowed : (not (is_nil present) && not i.overwrite) ≡ false
    all_sendable : AllSendable server i.env i.base.project pairs
    edited :
        manifest_with_entries y i.base.text i.base.project i.env (to_itself pairs) ≡ ok new_text
    vetted : (text_eq new_text i.base.text ≡ true) ⊎ (i.creatable ≡ ok tt)

  -- How an import of the pairs ends, from the state `s` and the world `w`.
  pub data IsOrdered (pairs : KeyValues) (s : σ) (w : World) : Imported σ → Type 0 where
    refused_first :
        (what : Text) → IsOrdered pairs s w (record { state = s; world = w; thrown = some what })
    cut_short :
        {new_text : Text} {t : σ} (what : Text)
        → IsReady pairs s new_text
        → SetsInOrder server i.env i.base.project pairs s t false
        → IsOrdered pairs s w (record { state = t; world = w; thrown = some what })
    unwritten :
        {new_text : Text} {t : σ} (what : Text)
        → IsReady pairs s new_text
        → SetsInOrder server i.env i.base.project pairs s t true
        → (write_file_atomic p i.base.write_path new_text w).0 ≡ err what
        → IsOrdered pairs s w (record {
          state = t;
          world = (write_file_atomic p i.base.write_path new_text w).1;
          thrown = some what;
        })
    written :
        {new_text : Text} {t : σ}
        → IsReady pairs s new_text
        → SetsInOrder server i.env i.base.project pairs s t true
        → (write_file_atomic p i.base.write_path new_text w).0 ≡ ok tt
        → IsOrdered pairs s w (record {
          state = t;
          world = (write_file_atomic p i.base.write_path new_text w).1;
          thrown = none;
        })
    unchanged :
        {t : σ}
        → IsReady pairs s i.base.text
        → SetsInOrder server i.env i.base.project pairs s t true
        → IsOrdered pairs s w (record { state = t; world = w; thrown = none })

  vetted_if :
      (same : Bool) (creatable : Result Text (Unit {0}))
      → (if same then ok tt else creatable) ≡ ok tt
      → (same ≡ true) ⊎ (creatable ≡ ok tt)
  vetted_if true creatable h = inl refl
  vetted_if false creatable h = inr h

  checked_text-IsReady :
      (pairs : KeyValues) (s : σ) (new_text : Text)
      → checked_text p y server i pairs s ≡ ok new_text
      → IsReady pairs s new_text
  unfolding checked_text
  checked_text-IsReady pairs s new_text h =
      let (u₁, something, h₁) = bind-eq-ok (throw_if (is_nil pairs) _) _ h in
      let (prefix, prefixed, h₂) = bind-eq-ok (scope_prefix i.env i.base.project) _ h₁ in
      let (existing, listed, h₃) = bind-eq-ok (server.get_prefix prefix s) _ h₂ in
      let (present, collided, h₄) =
        bind-eq-ok (collisions i.env i.base.project existing pairs) _ h₃ in
      let (u₂, allowed, h₅) =
        bind-eq-ok (throw_if (not (is_nil present) && not i.overwrite) _) _ h₄ in
      let (u₃, checked, h₆) = bind-eq-ok (check_all server i.env i.base.project pairs) _ h₅ in
      let (text, edited, h₇) =
        bind-eq-ok (manifest_with_entries y i.base.text i.base.project i.env (to_itself pairs)) _
          h₆ in
      let (u₄, vetted, h₈) =
        bind-eq-ok (if text_eq text i.base.text then ok tt else i.creatable) _ h₇ in
      record {
        prefix = prefix;
        existing = existing;
        present = present;
        something = throw_if-ok _ _ something;
        prefixed = prefixed;
        listed = listed;
        collided = collided;
        allowed = throw_if-ok _ _ allowed;
        all_sendable = check_all-AllSendable server i.env i.base.project pairs checked;
        edited = rw (← ok_inj h₈) edited;
        vetted = vetted_if (text_eq new_text i.base.text) i.creatable (rw (← ok_inj h₈) vetted);
      }

  write_back-IsOrdered :
      (pairs : KeyValues) (s : σ) (w : World) (new_text : Text) (sets : Result Text (Unit {0}) × σ)
      → IsReady pairs s new_text
      → (sets.0 ≡ ok tt × SetsInOrder server i.env i.base.project pairs s sets.1 true)
        ⊎ ((what : Text) × (sets.0 ≡ err what)
            × SetsInOrder server i.env i.base.project pairs s sets.1 false)
      → IsOrdered pairs s w (write_back p y server i new_text sets w)
  unfolding write_back
  write_back-IsOrdered pairs s w new_text (err what, t) ready (inl (r, order)) = cc
  write_back-IsOrdered pairs s w new_text (err what, t) ready (inr (e, r, order)) =
      cut_short what ready order
  write_back-IsOrdered pairs s w new_text (ok u, t) ready (inr (e, r, order)) = cc
  write_back-IsOrdered pairs s w new_text (ok u, t) ready (inl (r, order)) =
      elim (Bool-cases (text_eq new_text i.base.text)) [
        | inl same ↦
            rw same (
              unchanged (subst (IsReady pairs s) (text_eq→eq new_text i.base.text same) ready)
                order)
        | inr new ↦ elim (Result-cases (write_file_atomic p i.base.write_path new_text w).0) [
          | inr (what, e) ↦ rw (new, e) (unwritten what ready order e)
          | inl (v, e) ↦ rw (new, e) (written ready order e)
        ]
      ]

  import_pairs-IsOrdered :
      (pairs : KeyValues) (s : σ) (w : World)
      → IsOrdered pairs s w (import_pairs p y server i pairs s w)
  unfolding import_pairs
  import_pairs-IsOrdered pairs s w = elim (Result-cases (checked_text p y server i pairs s)) [
    | inr (what, e) ↦ rw (import_pairs, e) (refused_first what)
    | inl (new_text, e) ↦
        let ready = checked_text-IsReady pairs s new_text e in
        rw (import_pairs, e)
          (write_back-IsOrdered pairs s w new_text (set_all server i.env i.base.project pairs [] s)
            ready (set_all-SetsInOrder server i.env i.base.project pairs [] s ready.all_sendable))
  ]

  -- Reading leaves the world, and gives what is on the disk.
  read_file_string-reads :
      (path : Text) (w u : World) (r : Result Text Text)
      → read_file_string p path w ≡ (r, u)
      → (u ≡ w) × ((text : Text) → r ≡ ok text → w.disk path ≡ some text)
  unfolding read_file_string
  read_file_string-reads path w u r h = elim (Option-cases (w.disk path)) [
    | inl e ↦ (ground (arith, e), λ text f. ground (arith, e))
    | inr (text, e) ↦ (ground (arith, e), λ t f. ground (arith, e))
  ]

  -- How an import of the file ends.
  pub data IsImport (s : σ) (w : World) : Imported σ → Type 0 where
    unread :
        {u : World} (what : Text)
        → ((path : Text) → u.disk path ≡ w.disk path)
        → IsImport s w (record { state = s; world = u; thrown = some what })
    read :
        {text : Text} {pairs : KeyValues} {out : Imported σ}
        → w.disk i.file ≡ some text
        → (parse_dotenv text).1 ≡ ok pairs
        → IsOrdered pairs s (warned w (parse_dotenv text).0) out
        → IsImport s w out

  -- An import either ends before its first set, with the daemon's state and every file as they
  -- were; or the file's pairs passed all the checks, none of whose requests changes the state, and
  -- are set in the file's order until one is refused: then the manifest is left as it was. Only
  -- when every one was acknowledged is the manifest replaced, in one atomic write and only if it
  -- changes, and only then does the import succeed.
  pub import-IsImport : (s : σ) (w : World) → IsImport s w (import p y server i s w)
  unfolding import import_parsed warned
  import-IsImport s w = elim (outcome-cases (read_file_string p i.file w)) [
    | inr (what, u, e) ↦
        rw (import, e, e)
          (unread what
            (λ path. ap (λ (v : World). v.disk path) (read_file_string-reads i.file w u _ e).0))
    | inl (text, u, e) ↦
        let (same, held) = read_file_string-reads i.file w u _ e in
        elim (Result-cases (parse_dotenv text).1) [
          | inr (what, f) ↦
              rw (import, e, e, import_parsed, f)
                (unread what (λ path. ap (λ (v : World). v.disk path) same))
          | inl (pairs, f) ↦
              rw (import, e, e, import_parsed, f, same)
                (read (held text refl) f (import_pairs-IsOrdered pairs s _))
        ]
  ]
