-- ===== src/Dpop/Validate.antt =====
-- dpop.go: DPoPValidator.Validate and what it calls. The libraries are parameters: the JWT parser and the
-- keys of go-jose, SHA-256, base64, net/url, and the folding of case in the strings package. Times are
-- nanoseconds since the Unix epoch, without the overflow of time.Time.
use atol_sdk_go.Prelude.{
  ℕ, ◌+◌, ℤ, pos, less, same, plus, scale, Bool, true, false, not, ◌||◌, List, [], ◌∷◌, Option,
  none, some, Str, bytes, cut, ◌==◌, ◌!=◌, Result, ok, err, ◌>>=◌, ◌>>◌, guard, if◌then◌else◌,
}

pub data DpopError : Type 0 where
  missing : DpopError
  malformed : DpopError
  signature : DpopError
  method_mismatch : DpopError
  uri_mismatch : DpopError
  stale : DpopError
  replay : DpopError
  jkt_mismatch : DpopError
  ath_mismatch : DpopError
  replay_backend : DpopError

pub data KeyKind : Type 0 where
  ecdsa_public rsa_public other_kind : KeyKind

pub record Claims : Type 0 where
  pub jti : Str
  pub htm : Str
  pub htu : Str
  pub ath : Str
  pub iat : ℤ

-- The parts of a url.URL that the code reads or sets, and the others as one.
pub record Url : Type 0 where
  pub scheme : Str
  pub host : Str
  pub path : Str
  pub raw_query : Str
  pub fragment : Str
  pub others : Str

-- `typ`: the extra header of that name, where there is one and it is a string.
pub record Header (Key : Type 0) : Type 0 where
  pub typ : Option Str
  pub json_web_key : Option Key

-- `parse_signed`: ParseSigned with DPoPSupportedAlgs; `verified_claims`: tok.Claims, `none` where the
-- signature does not verify under the key. `thumbprint`: the raw RFC 7638 thumbprint.
pub record Libraries : Type 1 where
  pub Key : Type 0
  pub Token : Type 0
  pub parse_signed : Str → Option Token
  pub headers : Token → List (Header Key)
  pub is_public : Key → Bool
  pub kind : Key → KeyKind
  pub verified_claims : Token → Key → Option Claims
  pub thumbprint : Key → Option Str
  pub sum256 : Str → Str
  pub encode_to_string : Str → Str
  pub parse_url : Str → Option Url
  pub url_string : Url → Str
  pub equal_fold : Str → Str → Bool
  pub to_lower : Str → Str
  pub trim_space : Str → Str

-- DefaultDPoPSkew and DefaultDPoPMaxAge.
abbrev pub default_dpop_skew : ℕ
default_dpop_skew = 30000000000

abbrev pub default_dpop_max_age : ℕ
default_dpop_max_age = 60000000000

-- DPoPValidator, without its guard and its metrics.
pub record DpopValidator : Type 0 where
  pub skew : ℕ
  pub max_age : ℕ
  pub require_ath : Bool

-- NewDPoPValidator with no options, and the option WithRequireATH.
abbrev pub new_dpop_validator : DpopValidator
new_dpop_validator = record {
  skew = default_dpop_skew;
  max_age = default_dpop_max_age;
  require_ath = false;
}

abbrev pub with_require_ath : DpopValidator → DpopValidator
with_require_ath v = record v { require_ath = true }

pub record DpopProof : Type 0 where
  pub jkt : Str
  pub jti : Str
  pub htm : Str
  pub htu : Str
  pub ath : Str
  pub issued_at : ℤ

-- What the code reads of an http.Request.
pub record Request : Type 0 where
  pub dpop : Str
  pub method : Str
  pub tls : Bool
  pub forwarded_proto : Str
  pub host : Str
  pub path : Str

abbrev pub comma : ℕ
comma = 44

-- The first entry of a list with commas.
abbrev before_comma : Str → Str
before_comma s = elim (cut comma s) [ none ↦ s | some (before, after) ↦ before ]

-- strings.TrimSuffix and strings.HasSuffix: `none` where the string does not end so.
unfoldable pub without_suffix : Str → Str → Option Str
without_suffix suffix [] = if suffix == [] then some [] else none
without_suffix suffix (c ∷ s) =
    let rest = without_suffix suffix s in
    if suffix == (c ∷ s)
    then some []
    else elim rest [ none ↦ none | some before ↦ some (c ∷ before) ]

-- A default port is dropped from the host.
unfoldable pub without_port : Str → Str → Str → Str → Str
without_port port wanted scheme host = elim (without_suffix port host) [
  | none ↦ host
  | some shorter ↦ if scheme == wanted then shorter else host
]

module _ (libs : Libraries) where
  unfoldable pub access_token_hash : Str → Str
  access_token_hash token = libs.encode_to_string (libs.sum256 token)

  unfoldable pub jwk_thumbprint_sha256 : libs.Key → Result DpopError Str
  jwk_thumbprint_sha256 key = elim (libs.thumbprint key) [
    | none ↦ err malformed
    | some raw ↦ ok (libs.encode_to_string raw)
  ]

  unfoldable pub normalize_dpop_uri : Str → Str
  normalize_dpop_uri s = elim (libs.parse_url s) [
    | none ↦ s
    | some u ↦
        let host = without_port (bytes ":80") (bytes "http") u.scheme u.host in
        let host' = without_port (bytes ":443") (bytes "https") u.scheme host in
        libs.url_string (record u {
          raw_query = [];
          fragment = [];
          host = host';
          path = if u.path == [] then bytes "/" else u.path;
        })
  ]

  unfoldable pub request_scheme : Request → Str
  request_scheme r =
      if r.forwarded_proto != []
      then libs.to_lower (libs.trim_space (before_comma r.forwarded_proto))
      else if r.tls
      then bytes "https"
      else bytes "http"

  unfoldable pub reconstruct_request_uri : Request → Str
  reconstruct_request_uri r = libs.url_string (record {
    scheme = request_scheme r;
    host = r.host;
    path = r.path;
    raw_query = [];
    fragment = [];
    others = [];
  })

  -- The type switch on the key.
  abbrev pub is_supported_kind : KeyKind → Bool
  is_supported_kind ecdsa_public = true
  is_supported_kind rsa_public = true
  is_supported_kind other_kind = false

  -- The key of the only header.
  unfoldable pub proof_key : libs.Token → Result DpopError libs.Key
  proof_key token = elim (libs.headers token) [
    | [] ↦ err malformed
    | hdr ∷ more ↦ elim more [
      | _ ∷ _ ↦ err malformed
      | [] ↦ do
        guard (elim hdr.typ [ none ↦ false | some typ ↦ typ == bytes "dpop+jwt" ]) malformed
        elim hdr.json_web_key [
          | none ↦ err malformed
          | some key ↦ do
            guard (libs.is_public key) malformed
            guard (is_supported_kind (libs.kind key)) malformed
            ok key
        ]
    ]
  ]

  -- The switch on the access token hash.
  unfoldable pub check_ath : DpopValidator → Str → Claims → Result DpopError (Unit {0})
  check_ath v access_token claims =
      if access_token == []
      then ok tt
      else if claims.ath == []
      then if v.require_ath then err ath_mismatch else ok tt
      else guard (claims.ath == access_token_hash access_token) ath_mismatch

  -- time.Unix(claims.IAT, 0)
  abbrev pub issued : Claims → ℤ
  issued claims = scale claims.iat 1000000000

  abbrev pub expiry : DpopValidator → Claims → ℤ
  expiry v claims = plus (issued claims) (v.max_age + v.skew)

  -- The tests on the claims, at the time `now`.
  unfoldable pub check_claims :
      DpopValidator → ℤ → Str → Str → Str → Claims → Result DpopError (Unit {0})
  check_claims v now htm htu access_token claims = do
    guard (libs.equal_fold claims.htm htm) method_mismatch
    guard (normalize_dpop_uri claims.htu == normalize_dpop_uri htu) uri_mismatch
    check_ath v access_token claims
    guard (not (same claims.iat (pos 0))) malformed
    guard (not (less (plus now v.skew) (issued claims) || less (expiry v claims) now)) stale
    guard (claims.jti != []) malformed

  -- The end: the thumbprint, and the proof.
  unfoldable pub bind_key : Str → libs.Key → Claims → Result DpopError DpopProof
  bind_key expected_jkt key claims = do
    jkt ← jwk_thumbprint_sha256 key
    guard (expected_jkt == [] || jkt == expected_jkt) jkt_mismatch
    ok (record {
      jkt = jkt;
      jti = claims.jti;
      htm = claims.htm;
      htu = claims.htu;
      ath = claims.ath;
      issued_at = issued claims;
    })

  -- The part of validateString before the call of the guard: the key and the claims.
  unfoldable pub read_proof :
      DpopValidator → ℤ → Str → Str → Str → Str → Result DpopError (libs.Key × Claims)
  read_proof v now raw htm htu access_token = elim (libs.parse_signed raw) [
    | none ↦ err malformed
    | some token ↦ do
      key ← proof_key token
      elim (libs.verified_claims token key) [
        | none ↦ err signature
        | some claims ↦ check_claims v now htm htu access_token claims >> ok (key, claims)
      ]
  ]

  -- A guard of any kind: its state, and its CheckAndRecord, where `none` is an error.
  module _ {G : Type 0} (check : Str → ℤ → G → Option Bool × G) where
    unfoldable pub validate_string :
        DpopValidator → ℤ → Str → Str → Str → Str → Str → G → Result DpopError DpopProof × G
    validate_string v now raw htm htu expected_jkt access_token g =
        elim (read_proof v now raw htm htu access_token) [
          | err x ↦ (err x, g)
          | ok (key, claims) ↦
              let checked = check claims.jti (expiry v claims) g in
              elim checked.0 [
                | none ↦ (err replay_backend, checked.1)
                | some fresh ↦
                    if fresh
                    then (bind_key expected_jkt key claims, checked.1)
                    else (err replay, checked.1)
              ]
        ]

    unfoldable pub validate_request :
        DpopValidator → ℤ → Request → Str → Str → G → Result DpopError DpopProof × G
    validate_request v now r expected_jkt access_token g =
        if r.dpop == []
        then (err missing, g)
        else validate_string v now r.dpop r.method (reconstruct_request_uri r) expected_jkt
            access_token g
