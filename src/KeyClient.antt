-- ===== src/KeyClient.antt =====
-- keygrantor/keygrantor.go: how an enclave gets its key from a key grantor. The enclave, HTTP, the
-- JSON encoder, ECIES and the BIP-32 decoder come from packages that are not part of the
-- repository; they are parameters.
pub mod EndToEnd
pub mod Peers
use egvm.Prelude.{
  ℕ, ◌+◌, ◌≡◌, Bool, Option, none, some, List, [], ◌∷◌, ◌++◌, length, ◌==◌, not, if◌then◌else◌,
}
use egvm.Bytes.{Bytes}
use egvm.Hex.{hex_encode, hex_decode}
use egvm.Http.{Response, no_response, response}
use egvm.KeyServer.{GetKeyParams}

-- The key is a field of the server's library, so that both sides can be put together.
pub record ClientLib (Key PrivateKey : Type 0) : Type 0 where
  -- PublicKey.Bytes(true) of the public key of an ecies.PrivateKey
  pub public_bytes : PrivateKey → Bytes
  pub sha256 : Bytes → Bytes
  pub get_remote_report : Bytes → Option Bytes
  -- CreateAzureAttestationToken of the data at a provider's URL, and AttestationProviderURLs
  pub create_token : Bytes → Bytes → Option Bytes
  pub provider_urls : List Bytes
  pub marshal_params : GetKeyParams → Option Bytes
  -- A POST of a JSON body to a URL
  pub post : Bytes → Bytes → Response
  -- ecies.Decrypt and bip32.Deserialize
  pub decrypt : PrivateKey → Bytes → Option Bytes
  pub deserialize : Bytes → Option Key

-- The errors of GetKeyFromKeyGrantor, in the order of its checks.
pub data KeyError : Type 0 where
  no_report no_token no_params no_reply not_hex not_decrypted not_a_key : KeyError

pub data Fetched {ℓ} (A : Type ℓ) : Type ℓ where
  got : A → Fetched A
  failed : KeyError → Fetched A

infixl 5 ◌>>=◌
abbrev pub ◌>>=◌ {ℓ κ} : {A : Type ℓ} {B : Type κ} → Fetched A → (A → Fetched B) → Fetched B
failed e >>= later = failed e
got a >>= later = later a

abbrev pub or_fail {ℓ} : {A : Type ℓ} → KeyError → Option A → Fetched A
or_fail e none = failed e
or_fail e (some a) = got a

-- HttpPost: the body of a response with status 200
unfoldable pub body_of : Response → Option Bytes
body_of no_response = none
body_of (response status none) = none
body_of (response status (some body)) = if not (status == 200) then none else some body

-- The loop over the providers, with the token and the error that stand before it.
unfoldable pub first_token : (Bytes → Option Bytes) → List Bytes → Option Bytes → Option Bytes
first_token create [] before = before
first_token create (url ∷ urls) before = elim (create url) [
  | some token ↦ some token
  | none ↦ first_token create urls none
]

-- "/getkey?pubkey=" and "/xprv?pubkey="
abbrev pub getkey_path : Bytes
getkey_path =
    47 ∷ 103 ∷ 101 ∷ 116 ∷ 107 ∷ 101 ∷ 121 ∷ 63 ∷ 112 ∷ 117 ∷ 98 ∷ 107 ∷ 101 ∷ 121 ∷ 61 ∷ []

abbrev pub xprv_path : Bytes
xprv_path = 47 ∷ 120 ∷ 112 ∷ 114 ∷ 118 ∷ 63 ∷ 112 ∷ 117 ∷ 98 ∷ 107 ∷ 101 ∷ 121 ∷ 61 ∷ []

module _ {Key PrivateKey : Type 0} (lib : ClientLib Key PrivateKey) where
  -- GetKeyFromKeyGrantor, from the private key that GenerateEciesPrivateKey gave. The body that
  -- io.ReadAll returns is never nil.
  unfoldable pub get_key_from_key_grantor : PrivateKey → Bytes → Bytes → Fetched Key
  unfolding body_of first_token
  get_key_from_key_grantor priv_key key_grantor_url client_data = do
    let pubkey = lib.public_bytes priv_key
    let report_data = lib.sha256 pubkey ++ client_data
    report ← or_fail no_report (lib.get_remote_report report_data)
    token ←
        or_fail no_token (first_token (lib.create_token report_data) lib.provider_urls (some []))
    let path = if length client_data == 0 then xprv_path else getkey_path
    let url = key_grantor_url ++ (path ++ hex_encode pubkey)
    json_req ←
        or_fail no_params (lib.marshal_params (record { report = hex_encode report; jwt = token }))
    res ← or_fail no_reply (body_of (lib.post url json_req))
    res_bz ← or_fail not_hex (hex_decode res)
    key_bz ← or_fail not_decrypted (lib.decrypt priv_key res_bz)
    or_fail not_a_key (lib.deserialize key_bz)
