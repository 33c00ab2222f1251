-- ===== src/Downloader.antt =====
-- `DownloadFile` of src/file-downloader.cpp, as its calls of libcurl and of the file system, and
-- `ParseJsonFile`.
use learncppthroughprojects.Prelude.{
  ℕ, Bool, true, false, not, ◌&&◌, Option, none, some, List, [], ◌∷◌, ◌+◌, ◌-◌, Text, ◌≡◌, refl,
  Bool-cases, inl, inr, ltb, ◌==◌, nat_eq, if◌then◌else◌,
}

-- What the calls give: whether there is a handle and a file, and whether the transfer returns CURLE_OK.
pub record Transfer : Type 0 where
  pub has_handle : Bool
  pub has_file : Bool
  pub is_ok : Bool

-- The options that are set.
pub data CurlOption : Type 0 where
  url ca_info : Text → CurlOption
  write_function write_data : CurlOption
  ssl_verify_host ssl_verify_peer follow_location : ℕ → CurlOption

pub data Call : Type 0 where
  global_init easy_init easy_perform easy_cleanup global_cleanup : Call
  fopen : Text → Call
  fclose : Call
  easy_setopt : CurlOption → Call

-- `DownloadFile`: its result, and its calls in their order.
unfoldable pub download_file : Transfer → Text → Text → Text → Bool × List Call
download_file t file_url destination ca_cert_file =
    if t.has_handle
    then (if not t.has_file
        then (
          false,
          global_init ∷ easy_init ∷ fopen destination ∷ easy_cleanup ∷ global_cleanup ∷ [],
        )
        else (
          t.is_ok,
          global_init
              ∷ easy_init
              ∷ fopen destination
              ∷ easy_setopt (url file_url)
              ∷ easy_setopt write_function
              ∷ easy_setopt write_data
              ∷ easy_setopt (ca_info ca_cert_file)
              ∷ easy_setopt (ssl_verify_host 2)
              ∷ easy_setopt (ssl_verify_peer 1)
              ∷ easy_setopt (follow_location 1)
              ∷ easy_perform
              ∷ fclose
              ∷ easy_cleanup
              ∷ global_cleanup
              ∷ [],
        ))
    else (false, global_init ∷ easy_init ∷ [])

-- `ParseJsonFile`: whether the file exists, and what a reading that may have thrown has made of the
-- null value.
abbrev pub parse_json_file {ℓ} : {Json : Type ℓ} → Bool → (Json → Json) → Json → Json
parse_json_file exists read null = if not exists then null else read null

-- What the program holds: the initialised library, a handle, an open file, and whether the handle has
-- an address and checks the certificates of the server.
pub record Held : Type 0 where
  pub library : ℕ
  pub handle : Bool
  pub file : Bool
  pub has_url : Bool
  pub checks_host : Bool
  pub checks_peer : Bool

abbrev pub nothing_held : Held
nothing_held = record {
  library = 0;
  handle = false;
  file = false;
  has_url = false;
  checks_host = false;
  checks_peer = false;
}

abbrev pub set_option : CurlOption → Held → Held
set_option (url _) h = record h { has_url = true }
set_option (ssl_verify_host level) h = record h { checks_host = level == 2 }
set_option (ssl_verify_peer level) h = record h { checks_peer = level == 1 }
set_option _ h = h

-- The call, if it is allowed: a handle and a file are used and released only while they are held, and
-- a transfer has an address and checks the certificates.
unfoldable pub use_held : Transfer → Call → Held → Option Held
use_held t global_init h = some (record h { library = h.library + 1 })
use_held t easy_init h =
    if ltb 0 h.library && not h.handle then some (record h { handle = t.has_handle }) else none
use_held t (fopen _) h = if not h.file then some (record h { file = t.has_file }) else none
use_held t (easy_setopt o) h = if h.handle then some (set_option o h) else none
use_held t easy_perform h =
    if h.handle && h.file && h.has_url && h.checks_host && h.checks_peer then some h else none
use_held t fclose h = if h.file then some (record h { file = false }) else none
use_held t easy_cleanup h = if h.handle then some (record h { handle = false }) else none
use_held t global_cleanup h =
    if ltb 0 h.library then some (record h { library = h.library - 1 }) else none

unfoldable pub use_all : Transfer → List Call → Held → Option Held
use_all t [] h = some h
use_all t (c ∷ cs) h = elim (use_held t c h) [ none ↦ none | some h' ↦ use_all t cs h' ]

-- DownloadFile, whatever its calls give: it uses the handle and the file only while it holds them, and
-- transfers nothing without an address and the checks of the certificate and the host; at its end
-- it holds neither a handle nor an open file, and the library is initialised once more than before
-- only if there was no handle; and it returns true exactly if there were a handle and a file and
-- the transfer succeeded.
pub download_file-releases :
    (t : Transfer) (file_url destination ca_cert_file : Text)
    → (h : Held) × (use_all t (download_file t file_url destination ca_cert_file).1 nothing_held
        ≡ some h)
      × (h.handle ≡ false)
      × (h.file ≡ false)
      × (h.library ≡ (if t.has_handle then 0 else 1))
      × ((download_file t file_url destination ca_cert_file).0
          ≡ (t.has_handle && t.has_file && t.is_ok))
unfolding download_file use_all use_held
download_file-releases t file_url destination ca_cert_file = elim (Bool-cases t.has_handle) [
  | inr e ↦ (record nothing_held { library = 1 }, rw e refl, refl, refl, rw e refl, rw e refl)
  | inl e ↦ elim (Bool-cases t.has_file) [
    | inr f ↦ (nothing_held, rw (e, f) refl, refl, refl, rw e refl, rw (e, f) refl)
    | inl f ↦ (
      record nothing_held { has_url = true; checks_host = true; checks_peer = true },
      rw (e, f) refl,
      refl,
      refl,
      rw e refl,
      rw (e, f) refl,
    )
  ]
]
