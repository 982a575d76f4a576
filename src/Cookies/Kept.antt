-- ===== src/Cookies/Kept.antt =====
-- Which cookies are kept (src/bdfs-lib/HttpCookies.cpp).
use drive.Cookies.{Cookie, is_named, delete_cookies, set_cookie}
use drive.Prelude.{ℕ, ◌≡◌, refl, ap, Bool, List, [], ◌∷◌, ◌++◌, if◌then◌else◌, Bool-cases, inl, inr}
use drive.Prelude.Texts.{Bytes, str_eq_self}

-- The cookies of one name, domain and path.
abbrev pub matching : Bytes → Bytes → Bytes → List Cookie → List Cookie
matching name domain path [] = []
matching name domain path (c ∷ cookies) =
    let rest = matching name domain path cookies in
    if is_named name domain path c then c ∷ rest else rest

-- After `__Delete` no cookie of its name, domain and path is left.
pub matching-delete_cookies :
    (name domain path : Bytes) (cookies : List Cookie)
    → matching name domain path (delete_cookies name domain path cookies) ≡ []
unfolding delete_cookies
matching-delete_cookies name domain path [] = refl
matching-delete_cookies name domain path (c ∷ cookies) =
    let rest = matching-delete_cookies name domain path cookies in
    elim (Bool-cases (is_named name domain path c)) [
      | inl same ↦ rw same rest
      | inr other ↦ rw (other, other) rest
    ]

matching-append :
    (name domain path : Bytes) (xs ys : List Cookie)
    → matching name domain path (xs ++ ys)
      ≡ matching name domain path xs ++ matching name domain path ys
matching-append name domain path [] ys = refl
matching-append name domain path (c ∷ xs) ys =
    let rest = matching-append name domain path xs ys in
    elim (Bool-cases (is_named name domain path c)) [
      | inl same ↦ rw same (ap (λ (t : List Cookie). c ∷ t) rest)
      | inr other ↦ rw other rest
    ]

-- After `Set` there is exactly one cookie of its name, domain and path: the new one, which is marked
-- as secure if the caller asked for HTTP only, and for HTTP only if the caller asked for secure.
pub matching-set_cookie :
    (name value domain path : Bytes) (expires max_age : ℕ) (secure http_only : Bool)
    (cookies : List Cookie)
    → matching name domain path
        (set_cookie name value domain path expires max_age secure http_only cookies)
      ≡ record {
        name = name;
        value = value;
        domain = domain;
        path = path;
        expires = expires;
        max_age = max_age;
        http_only = secure;
        secure = http_only;
      }
        ∷ []
unfolding set_cookie
matching-set_cookie name value domain path expires max_age secure http_only cookies =
    let new : Cookie = record {
      name = name;
      value = value;
      domain = domain;
      path = path;
      expires = expires;
      max_age = max_age;
      http_only = secure;
      secure = http_only;
    } in
    rw (
      matching-append name domain path (delete_cookies name domain path cookies) (new ∷ []),
      matching-delete_cookies name domain path cookies,
      str_eq_self name,
      str_eq_self domain,
      str_eq_self path,
    )
