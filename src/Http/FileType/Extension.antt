-- ===== src/Http/FileType/Extension.antt =====
-- The media type is that of the extension.
use linux_api_and_socket_pro.Common.{
  ℕ, ◌≡◌, ◌≢◌, List, [], ◌∷◌, ◌++◌, arith, if◌then◌else◌, codes, All,
}
use linux_api_and_socket_pro.Http.Bytes.{str_eq, strrchr-append, strrchr_missing}
use linux_api_and_socket_pro.Http.FileType.{plain_text, type_of_suffix, get_file_type}

-- the extensions that the servers know, with their types
abbrev pub known : List (List ℕ × List ℕ)
known =
    (codes "html", codes "text/html; charset=utf-8")
    ∷ (codes "htm", codes "text/html; charset=utf-8")
    ∷ (codes "jpg", codes "image/jpeg")
    ∷ (codes "jpeg", codes "image/jpeg")
    ∷ (codes "gif", codes "image/gif")
    ∷ (codes "png", codes "image/png")
    ∷ (codes "css", codes "text/css")
    ∷ (codes "au", codes "audio/basic")
    ∷ (codes "wav", codes "audio/wav")
    ∷ (codes "avi", codes "video/x-msvideo")
    ∷ (codes "mov", codes "video/quicktime")
    ∷ (codes "qt", codes "video/quicktime")
    ∷ (codes "mpeg", codes "video/mpeg")
    ∷ (codes "mpe", codes "video/mpeg")
    ∷ (codes "vrml", codes "model/vrml")
    ∷ (codes "wrl", codes "model/vrml")
    ∷ (codes "midi", codes "audio/midi")
    ∷ (codes "mid", codes "audio/midi")
    ∷ (codes "mp3", codes "audio/mpeg")
    ∷ (codes "ogg", codes "application/ogg")
    ∷ (codes "pac", codes "application/x-ns-proxy-autoconfig")
    ∷ []

-- the type that a table gives an extension
unfoldable pub type_in : List (List ℕ × List ℕ) → List ℕ → List ℕ
type_in [] ext = plain_text
type_in ((e, t) ∷ table) ext = if str_eq ext e then t else type_in table ext

type_of_suffix-eq : (ext : List ℕ) → type_of_suffix (b'.' ∷ ext) ≡ type_in known ext
unfolding type_of_suffix type_in
type_of_suffix-eq ext = ground arith

-- A name ends in a dot and an extension without a dot: its type is the one that the table gives the
-- extension, whatever stands before. A name without a dot is plain text.
pub get_file_type_lem :
    (stem ext : List ℕ)
    → All (λ b. b ≢ b'.') ext
    → (get_file_type (stem ++ (b'.' ∷ ext)) ≡ type_in known ext) × (get_file_type ext ≡ plain_text)
unfolding get_file_type type_in
get_file_type_lem stem ext h = (
  rw (get_file_type, strrchr-append stem ext b'.' h) (type_of_suffix-eq ext),
  rw (get_file_type, strrchr_missing ext b'.' h),
)
