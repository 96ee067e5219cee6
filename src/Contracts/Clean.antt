-- ===== src/Contracts/Clean.antt =====
-- What the search for forbidden content guarantees, at every depth of a payload.
use runner_observability.Base.{
  ℕ, zero, suc, String, ◌≡◌, false, not, List, [], ◌∷◌, ◌++◌, All, All-append, ok, guard, >>=-eq-ok,
  arith,
}
use runner_observability.Value.{
  Value, Items, Fields, null, bool, int, float, str, list, tuple, dict, proxy, nil, cons, end,
  field,
}
use runner_observability.Python.{Python}
use runner_observability.Contracts.Fields.{
  invalid, forbidden_field_fragment, secret_value, absolute_path,
}
use runner_observability.Contracts.Content.{
  validate_no_forbidden_content, validate_items, validate_fields,
}
use runner_observability.Contracts.Event.{ValidatedEvent, validate_event}
use runner_observability.Contracts.Steps.{validate_event-Steps}

-- Every text and every key of a value, at any depth.
abbrev mutual
  pub texts : Value → List String
  texts (dict f) = texts_fields f
  texts (proxy f) = texts_fields f
  texts (list l) = texts_items l
  texts (tuple l) = texts_items l
  texts (str s) = s ∷ []
  texts null = []
  texts (bool b) = []
  texts (int i) = []
  texts (float b) = []

  pub texts_items : Items → List String
  texts_items nil = []
  texts_items (cons v l) = texts v ++ texts_items l

  pub texts_fields : Fields → List String
  texts_fields end = []
  texts_fields (field k v f) = texts v ++ texts_fields f

abbrev mutual
  pub names : Value → List String
  names (dict f) = names_fields f
  names (proxy f) = names_fields f
  names (list l) = names_items l
  names (tuple l) = names_items l
  names (str s) = []
  names null = []
  names (bool b) = []
  names (int i) = []
  names (float b) = []

  pub names_items : Items → List String
  names_items nil = []
  names_items (cons v l) = names v ++ names_items l

  pub names_fields : Fields → List String
  names_fields end = []
  names_fields (field k v f) = k ∷ names v ++ names_fields f

module _ (py : Python) where
  abbrev pub IsSafeText : String → Type 0
  IsSafeText s = (py.re_search secret_value s ≡ false) × (py.re_search absolute_path s ≡ false)

  abbrev pub IsSafeName : String → Type 0
  IsSafeName k = py.re_search forbidden_field_fragment k ≡ false

  abbrev pub IsClean : List String → List String → Type 0
  IsClean ts ks = All IsSafeText ts × All IsSafeName ks

  IsClean-append :
      (ts us ks ls : List String) → IsClean ts ks → IsClean us ls → IsClean (ts ++ us) (ks ++ ls)
  IsClean-append ts us ks ls h g =
      (All-append IsSafeText ts us h.0 g.0, All-append IsSafeName ks ls h.1 g.1)

  mutual
    unfolding validate_no_forbidden_content

    content-IsClean :
        (d : ℕ) (v : Value) {t : Unit {0}}
        → validate_no_forbidden_content py d v ≡ ok t
        → IsClean (texts v) (names v)
    content-IsClean zero v h = cc
    content-IsClean (suc d) (dict f) h = fields-IsClean d f h
    content-IsClean (suc d) (proxy f) h = fields-IsClean d f h
    content-IsClean (suc d) (list l) h = items-IsClean d l h
    content-IsClean (suc d) (tuple l) h = items-IsClean d l h
    content-IsClean (suc d) (str s) h = ground arith
    content-IsClean (suc d) null h = (tt, tt)
    content-IsClean (suc d) (bool b) h = (tt, tt)
    content-IsClean (suc d) (int i) h = (tt, tt)
    content-IsClean (suc d) (float b) h = (tt, tt)

    items-IsClean :
        (d : ℕ) (l : Items) {t : Unit {0}}
        → validate_items py d l ≡ ok t
        → IsClean (texts_items l) (names_items l)
    items-IsClean d nil h = (tt, tt)
    items-IsClean d (cons v l) h =
        let (t, first, rest) = >>=-eq-ok (validate_no_forbidden_content py d v) _ h in
        IsClean-append _ _ _ _ (content-IsClean d v first) (items-IsClean d l rest)

    fields-IsClean :
        (d : ℕ) (f : Fields) {t : Unit {0}}
        → validate_fields py d f ≡ ok t
        → IsClean (texts_fields f) (names_fields f)
    fields-IsClean d end h = (tt, tt)
    fields-IsClean d (field k v f) h =
        let (t, name, more) =
          >>=-eq-ok (guard (not (py.re_search forbidden_field_fragment k)) invalid) _ h in
        let (u, first, rest) = >>=-eq-ok (validate_no_forbidden_content py d v) _ more in
        let (cleaned, named) =
          IsClean-append _ _ _ _ (content-IsClean d v first) (fields-IsClean d f rest) in
        (cleaned, (ground (arith), named))

-- An accepted payload has, at any depth, no text that looks like a secret or an absolute path and no
-- key that names one.
pub validate_event_clean :
    (py : Python) (value : Value) (e : ValidatedEvent)
    → validate_event py value ≡ ok e
    → All (IsSafeText py) (texts value) × All (IsSafeName py) (names value)
validate_event_clean py value e h =
    content-IsClean py py.search_depth value (validate_event-Steps py value e h).clean
