-- ===== src/Cookies.antt =====
-- `Set` by parts and `Delete` of src/bdfs-lib/HttpCookies.cpp: the cookies that a client keeps.
pub mod Kept
use drive.Prelude.{ℕ, Bool, ◌&&◌, List, [], ◌∷◌, ◌++◌, if◌then◌else◌}
use drive.Prelude.Texts.{Bytes, str_eq}

pub record Cookie : Type 0 where
  pub name : Bytes
  pub value : Bytes
  pub domain : Bytes
  pub path : Bytes
  pub expires : ℕ
  pub max_age : ℕ
  pub http_only : Bool
  pub secure : Bool

abbrev pub is_named : Bytes → Bytes → Bytes → Cookie → Bool
is_named name domain path c = str_eq c.name name && (str_eq c.domain domain && str_eq c.path path)

-- `__Delete`
unfoldable pub delete_cookies : Bytes → Bytes → Bytes → List Cookie → List Cookie
delete_cookies name domain path [] = []
delete_cookies name domain path (c ∷ cookies) =
    let rest = delete_cookies name domain path cookies in
    if is_named name domain path c then rest else c ∷ rest

-- The constructor takes `http_only` in front of `secure`, and `Set` passes them the other way round.
unfoldable pub set_cookie :
    Bytes → Bytes → Bytes → Bytes → ℕ → ℕ → Bool → Bool → List Cookie → List Cookie
set_cookie name value domain path expires max_age secure http_only cookies =
    delete_cookies name domain path cookies
    ++ record {
      name = name;
      value = value;
      domain = domain;
      path = path;
      expires = expires;
      max_age = max_age;
      http_only = secure;
      secure = http_only;
    }
      ∷ []
