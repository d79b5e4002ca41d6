-- ===== src/Preferences/Catalog.antt =====
-- src/extensions/clientprefs/service.cpp: the cookies, their registration and the stored catalog.
-- A shared_ptr<Cookie> is the cookie's place in `heap`, null is none.
use source2root.Base.{
  ℕ, Bool, true, false, not, ◌&&◌, Option, none, some, List, [], ◌∷◌, ◌++◌, Result, ok, err, ◌>>◌,
  throw_if, if◌then◌else◌, ◌==◌, is_nil, length, get_elem?, set,
}
use source2root.Base.Text.{Bytes, codes}
use source2root.Base.Table.{lookup, put, without, bytes_key}
use source2root.Player.{int_eq}
use source2root.Preferences.{
  Failure, message, ServiceError, failed_cookie, State, loading_state, ready, failed,
}
use source2root.Preferences.Checks.{Definition, same_definition, validate, private_access}

pub record Cookie : Type 0 where
  pub definition : Definition
  pub state : State
  pub error : Bytes

pub record Catalog : Type 0 where
  pub state : State
  pub error : Bytes
  pub cookies : List (Bytes × ℕ)
  pub heap : List Cookie

abbrev pub max_cookies : ℕ
max_cookies = 256

abbrev pub is_ready : State → Bool
is_ready loading_state = false
is_ready ready = true
is_ready failed = false

abbrev pub is_failed : State → Bool
is_failed loading_state = false
is_failed ready = false
is_failed failed = true

-- Find
unfoldable pub find : Bytes → Catalog → Option ℕ
find name c = lookup name c.cookies

abbrev pub same_cookie : Option ℕ → ℕ → Bool
same_cookie none i = false
same_cookie (some j) i = j == i

abbrev pub on_cookie : (Cookie → Cookie) → ℕ → Catalog → Catalog
on_cookie f i c = elim (get_elem? c.heap i) [
  | none ↦ c
  | some cookie ↦ record c { heap = set c.heap i (f cookie) }
]

-- CheckCookie, which gives the cookie
unfoldable pub check_cookie : Option ℕ → Catalog → Result ServiceError Cookie
check_cookie none c = err ServiceError.foreign_cookie
check_cookie (some i) c = elim (get_elem? c.heap i) [
  | none ↦ err ServiceError.foreign_cookie
  | some cookie ↦
      throw_if (not (same_cookie (find cookie.definition.name c) i)) ServiceError.foreign_cookie
      >> (throw_if (not (is_ready cookie.state)) (
            if is_nil cookie.error
            then ServiceError.incomplete_cookie
            else failed_cookie cookie.error)
          >> ok cookie)
]

-- UserCookies, in the order of registration
unfoldable pub user_cookies : List (Bytes × ℕ) → Catalog → List Definition
user_cookies [] c = []
user_cookies ((name, i) ∷ rest) c =
    let others = user_cookies rest c in
    elim (get_elem? c.heap i) [
      | none ↦ others
      | some cookie ↦
          if is_ready cookie.state && not (int_eq cookie.definition.access private_access)
          then cookie.definition ∷ others
          else others
    ]

abbrev pub ready_cookie : Definition → Cookie
ready_cookie definition = record { definition = definition; state = ready; error = [] }

-- The cookie that Register submits, where it is to be submitted: the failed one again or a new one
abbrev pub awaiting : Cookie → Cookie
awaiting cookie = record cookie { state = loading_state; error = [] }

-- Register up to Submit: a cookie that is there already, or none where one is to be stored
unfoldable pub registered : Definition → Catalog → Result ServiceError (Option ℕ)
registered definition c = validate definition >> elim (find definition.name c) [
  | none ↦ throw_if (length c.cookies == max_cookies) ServiceError.too_many_cookies >> ok none
  | some i ↦ elim (get_elem? c.heap i) [
    | none ↦ err ServiceError.foreign_cookie
    | some old ↦
        throw_if (not (same_definition old.definition definition)) ServiceError.other_definition
        >> ok (if is_failed old.state then none else some i)
  ]
]

-- Register after Submit
unfoldable pub submitted : Definition → Catalog → Catalog × ℕ
submitted definition c = elim (find definition.name c) [
  | some i ↦ (on_cookie awaiting i c, i)
  | none ↦ (
    record c {
      heap = c.heap ++ awaiting (ready_cookie definition) ∷ [];
      cookies = put definition.name (length c.heap) c.cookies;
    },
    length c.heap,
  )
]

-- The completion of Register
abbrev pub settled : Option Failure → Cookie → Cookie
settled none cookie = record cookie { error = []; state = ready }
settled (some f) cookie = record cookie { error = message (some f); state = failed }

unfoldable pub after_register : ℕ → Option Failure → Catalog → Catalog
after_register i failure c = elim (get_elem? c.heap i) [
  | none ↦ c
  | some cookie ↦
      let c1 = on_cookie (settled failure) i c in
      elim failure [
        | none ↦ c1
        | some f ↦
            if same_cookie (find cookie.definition.name c1) i
            then record c1 { cookies = without cookie.definition.name c1.cookies }
            else c1
      ]
]

abbrev pub conflict : Bytes
conflict = codes "Cookie already exists with different description or access mode."

abbrev pub conflicting : Cookie → Cookie
conflicting cookie = record cookie { state = failed; error = conflict }

abbrev pub with_ready : Definition → Catalog → Catalog
with_ready definition c = record c {
  heap = c.heap ++ ready_cookie definition ∷ [];
  cookies = put definition.name (length c.heap) c.cookies;
}

-- One definition of the stored catalog; none where the limit ends the loop
unfoldable pub catalogued : Definition → Catalog → Option Catalog
catalogued definition c = elim (find definition.name c) [
  | none ↦ if length c.cookies == max_cookies then none else some (with_ready definition c)
  | some i ↦ elim (get_elem? c.heap i) [
    | none ↦ some c
    | some old ↦
        if same_definition old.definition definition
        then some c
        else some (with_ready definition (on_cookie conflicting i c))
  ]
]

-- The completion of LoadCatalog
unfoldable pub catalogue : List Definition → Catalog → Catalog
catalogue [] c = c
catalogue (definition ∷ rest) c = elim (catalogued definition c) [
  | none ↦ record c {
    state = failed;
    error = codes "Client preferences catalog limit (256) reached.";
  }
  | some c' ↦ catalogue rest c'
]

unfoldable pub after_catalog : Result Failure (List Definition) → Catalog → Catalog
after_catalog (err f) c = record c { error = message (some f); state = failed }
after_catalog (ok definitions) c = catalogue definitions (record c { error = []; state = ready })
