-- ===== src/Auth/Tokens/Plain.antt =====
-- Unsigned tokens that spell their claims out: an instance that shows that the laws can hold.
use Prim.Native.Char.{Char, code, nul}
use text.Mathlib.Text.{◌==◌ as str_eq}
use text.Mathlib.TextPositions.{eq_refl}
use attendence_v.Prelude.{
  ℕ, zero, suc, ◌*◌, ◌<◌, ◌≡◌, refl, String, Option, some, none, arith, ltb, leb, ◌&&◌, ◌≤◌, ◌==◌,
  if◌then◌else◌,
}
use attendence_v.Storage.Models.{UserRole, admin, instructor, auditor, operator}
use attendence_v.Redis.{second}
use attendence_v.Auth.Tokens.{TokenType, TokenClaims, Jwt, access, refresh}

unfoldable pub first : String → Char
first String.[] = nul
first (String.◌∷◌ c s) = c

unfoldable pub more : Char
unfolding first
more = first "m"

abbrev pub put_number : ℕ → String → String
put_number zero s = String.◌∷◌ nul s
put_number (suc n) s = String.◌∷◌ more (put_number n s)

abbrev pub get_number : String → ℕ × String
get_number String.[] = (0, String.[])
get_number (String.◌∷◌ c s) =
    let rest = get_number s in if code c == 0 then (0, s) else (suc rest.0, rest.1)

pub get-put_number : (n : ℕ) (s : String) → get_number (put_number n s) ≡ (n, s)
unfolding more
get-put_number zero s = refl
get-put_number (suc n) s = rw (get-put_number n s) refl

abbrev pub put_string : String → String → String
put_string String.[] s = String.◌∷◌ nul s
put_string (String.◌∷◌ c u) s = String.◌∷◌ more (String.◌∷◌ c (put_string u s))

mutual
  pub get_string : String → String × String
  get_string String.[] = (String.[], String.[])
  get_string (String.◌∷◌ c s) = if code c == 0 then (String.[], s) else get_letter s

  get_letter : String → String × String
  get_letter String.[] = (String.[], String.[])
  get_letter (String.◌∷◌ c s) = (String.◌∷◌ c (get_string s).0, (get_string s).1)

pub get-put_string : (u s : String) → get_string (put_string u s) ≡ (u, s)
unfolding get_string get_letter more
get-put_string String.[] s = refl
get-put_string (String.◌∷◌ c u) s = rw (get-put_string u s) refl

abbrev type_number : TokenType → ℕ
type_number access = 0
type_number refresh = 1

abbrev type_of_number : ℕ → TokenType
type_of_number k = if k == 0 then access else refresh

abbrev role_number : UserRole → ℕ
role_number admin = 0
role_number instructor = 1
role_number auditor = 2
role_number operator = 3

abbrev role_of_number : ℕ → UserRole
role_of_number k =
    if k == 0 then admin else if k == 1 then instructor else if k == 2 then auditor else operator

type_of-type_number : (t : TokenType) → type_of_number (type_number t) ≡ t
type_of-type_number access = refl
type_of-type_number refresh = refl

role_of-role_number : (r : UserRole) → role_of_number (role_number r) ≡ r
role_of-role_number admin = refl
role_of-role_number instructor = refl
role_of-role_number auditor = refl
role_of-role_number operator = refl

unfoldable pub spell : TokenClaims → String
spell c = put_number c.sub (
    put_string c.jti (
      put_number (type_number c.token_type) (
        put_number c.exp (
          put_number c.iat
            (put_string c.iss (put_string c.aud (put_number (role_number c.role) "")))))))

unfoldable pub parse : String → TokenClaims
parse s0 =
    let (sub, s1) = get_number s0 in
    let (jti, s2) = get_string s1 in
    let (token_type, s3) = get_number s2 in
    let (exp, s4) = get_number s3 in
    let (iat, s5) = get_number s4 in
    let (iss, s6) = get_string s5 in
    let (aud, s7) = get_string s6 in
    record {
      sub = sub;
      jti = jti;
      token_type = type_of_number token_type;
      exp = exp;
      iat = iat;
      iss = iss;
      aud = aud;
      role = role_of_number (get_number s7).0;
    }

parse-spell : (c : TokenClaims) → parse (spell c) ≡ c
unfolding parse spell
parse-spell c =
    let s7 = put_number (role_number c.role) "" in
    let s6 = put_string c.aud s7 in
    let s5 = put_string c.iss s6 in
    let s4 = put_number c.iat s5 in
    let s3 = put_number c.exp s4 in
    let s2 = put_number (type_number c.token_type) s3 in
    let s1 = put_string c.jti s2 in
    rw
      (
        get-put_number c.sub s1,
        get-put_string c.jti s2,
        get-put_number (type_number c.token_type) s3,
        get-put_number c.exp s4,
        get-put_number c.iat s5,
        get-put_string c.iss s6,
        get-put_string c.aud s7,
        get-put_number (role_number c.role) "",
        type_of-type_number c.token_type,
        role_of-role_number c.role,
      )
      refl

unfoldable pub admitted : ℕ → String → String → TokenClaims → Option TokenClaims
admitted t audience issuer c =
    if ltb t (c.exp * second)
      && leb (c.iat * second) t
      && str_eq c.aud audience
      && str_eq c.iss issuer
    then some c
    else none

abbrev pub decode : ℕ → String → String → String → Option TokenClaims
decode t audience issuer token = admitted t audience issuer (parse token)

pub decode-spell :
    (t : ℕ) (c : TokenClaims)
    → c.iat * second ≤ t
    → t < c.exp * second
    → decode t c.aud c.iss (spell c) ≡ some c
unfolding admitted
decode-spell t c begun early = rw (parse-spell c) (ground (arith, eq_refl c.aud, eq_refl c.iss))

pub decode_early :
    (t : ℕ) (audience issuer token : String) (c : TokenClaims)
    → decode t audience issuer token ≡ some c
    → t < c.exp * second
unfolding admitted
decode_early t audience issuer token c h = ground arith

pub decode_equal :
    (t t' : ℕ) (audience issuer token : String) (c c' : TokenClaims)
    → decode t audience issuer token ≡ some c
    → decode t' audience issuer token ≡ some c'
    → c' ≡ c
unfolding admitted
decode_equal t t' audience issuer token c c' h h' = ground arith

abbrev pub plain_jwt : Jwt
plain_jwt = record {
  encode = spell;
  decode = decode;
  decode-encode = decode-spell;
  decode_unexpired = decode_early;
  decode_same = decode_equal;
}
