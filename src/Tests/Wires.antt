-- ===== src/Tests/Wires.antt =====
-- Tokens that are their claims, and a client that answers every request itself.
use octw.Prelude.{
  Text, Option, none, some, [], ◌∷◌, ◌++◌, ◌≡◌, refl, ap, arith, leb, ltb, lt→ltb, length, take,
  drop, if◌then◌else◌,
}
use octw.Exec.{ok}
use octw.Models.Tenant.{Time}
use octw.Api.Auth.{Claims, Payload, Tokens}
use octw.Api.Tokens.{TokenLaws}
use octw.Edge.Proxy.{Client, internal_api}
use octw.Edge.Urls.{ClientLaws, length-append}
use octw.Tests.Machine.{Machine}

abbrev tid_code : Option Text → Text
tid_code none = []
tid_code (some t) = 1 ∷ t

abbrev tid_of : Text → Option Text
tid_of [] = none
tid_of (c ∷ t) = some t

abbrev written : Claims → Text → Text → Text
written c secret algorithm =
    length c.sub ∷ length c.email ∷ c.exp ∷ (c.sub ++ (c.email ++ tid_code c.tid))

abbrev read_claims : Text → Text → Text → Time → Option Payload
read_claims (a ∷ b ∷ exp ∷ s) secret algorithm now =
    if ltb now exp
    then some (record {
      sub = some (take a s);
      email = some (take b (drop a s));
      tid = tid_of (drop b (drop a s));
    })
    else none
read_claims _ secret algorithm now = none

abbrev pub open_tokens : Tokens
open_tokens = record { encode = written; decode = read_claims; token_urlsafe = λ draw. draw ∷ [] }

take-length : (xs ys : Text) → take (length xs) (xs ++ ys) ≡ xs
take-length [] ys = refl
take-length (x ∷ xs) ys = ap (λ zs. x ∷ zs) (take-length xs ys)

drop-length : (xs ys : Text) → drop (length xs) (xs ++ ys) ≡ ys
drop-length [] ys = refl
drop-length (x ∷ xs) ys = drop-length xs ys

tid_of-tid_code : (o : Option Text) → tid_of (tid_code o) ≡ o
tid_of-tid_code none = refl
tid_of-tid_code (some t) = refl

pub open_tokens-TokenLaws : TokenLaws open_tokens
open_tokens-TokenLaws = record {
  decode-encode = λ c secret algorithm now h.
      rw
        (
          lt→ltb now c.exp h,
          take-length c.sub (c.email ++ tid_code c.tid),
          drop-length c.sub (c.email ++ tid_code c.tid),
          take-length c.email (tid_code c.tid),
          drop-length c.email (tid_code c.tid),
          tid_of-tid_code c.tid,
        )
        refl;
}

abbrev pub echo : Client Machine
echo = record {
  url_ok = λ url. leb (length url) 65536;
  request = λ o d. (ok (record { status_code = 200; headers = []; content = o.url }), d);
  headers_dict = λ h. h;
}

pub echo-ClientLaws : ClientLaws echo
echo-ClientLaws = record {
  takes = λ path h n. ground (arith, length-append internal_api (b'/' ∷ path));
}
