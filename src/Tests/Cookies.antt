-- ===== src/Tests/Cookies.antt =====
-- Cookies of a client (src/bdfs-lib/HttpCookies.cpp).
use drive.Cookies.{Cookie, set_cookie}
use drive.Cookies.Kept.{matching, matching-set_cookie}
use drive.Prelude.{◌≡◌, true, false, [], ◌∷◌}
use drive.Prelude.Texts.{codes}

abbrev old : Cookie
old = record {
  name = codes "a";
  value = codes "1";
  domain = codes "h";
  path = codes "/";
  expires = 0;
  max_age = 0;
  http_only = false;
  secure = false;
}

abbrev elsewhere : Cookie
elsewhere = record old { path = codes "/x" }

matching-set_cookie_example :
    matching (codes "a") (codes "h") (codes "/") (
      set_cookie
        (codes "a")
        (codes "2")
        (codes "h")
        (codes "/")
        0
        0
        true
        false
        (old ∷ elsewhere ∷ []))
    ≡ record old { value = codes "2"; http_only = true } ∷ []
matching-set_cookie_example =
    matching-set_cookie (codes "a") (codes "2") (codes "h") (codes "/") 0 0 true false
      (old ∷ elsewhere ∷ [])
