-- ===== src/Http/FileType.antt =====
-- `get_file_type`, which both servers hold: the media type for a file name.
pub mod Extension
use linux_api_and_socket_pro.Common.{
  ℕ, zero, suc, ◌+◌, ◌-◌, ◌*◌, ◌/◌, ◌%◌, ◌^◌, ◌≤◌, ◌<◌, min, ◌≡◌, refl, sym, ap, ap₂, subst, ◌∙◌,
  ◌≢◌, ◌↔◌, ◌⊎◌, inl, inr, Bool, true, false, not, ◌&&◌, ◌||◌, Option, none, some, List, [], ◌∷◌,
  ◌++◌, map, append-nil, append_assoc, arith, dec_lt, dec_le, ℕ_discrete, ltb, leb, ◌==◌,
  if◌then◌else◌, ==_iff, ==_refl, Bool-cases, Option-cases, codes, length, get_or, set, take, drop,
  replicate, All, length-append, length-set, length-replicate, get_or-set_self, get_or-set_ne,
  take-append-drop, length-take, length-drop, All-append,
}
use linux_api_and_socket_pro.Http.Bytes.{
  cr, lf, blank, cstr, str_eq, strrchr, tolower, isspace, isxdigit, decimal_from, decimal,
  str_eq_refl, strrchr-append, strrchr_missing,
}

abbrev pub plain_text : List ℕ
plain_text = codes "text/plain; charset=utf-8"

-- The chain of comparisons with the name from its last dot on.
unfoldable pub type_of_suffix : List ℕ → List ℕ
unfolding str_eq
type_of_suffix dot =
    if str_eq dot (codes ".html") || str_eq dot (codes ".htm")
    then codes "text/html; charset=utf-8"
    else if str_eq dot (codes ".jpg") || str_eq dot (codes ".jpeg")
    then codes "image/jpeg"
    else if str_eq dot (codes ".gif")
    then codes "image/gif"
    else if str_eq dot (codes ".png")
    then codes "image/png"
    else if str_eq dot (codes ".css")
    then codes "text/css"
    else if str_eq dot (codes ".au")
    then codes "audio/basic"
    else if str_eq dot (codes ".wav")
    then codes "audio/wav"
    else if str_eq dot (codes ".avi")
    then codes "video/x-msvideo"
    else if str_eq dot (codes ".mov") || str_eq dot (codes ".qt")
    then codes "video/quicktime"
    else if str_eq dot (codes ".mpeg") || str_eq dot (codes ".mpe")
    then codes "video/mpeg"
    else if str_eq dot (codes ".vrml") || str_eq dot (codes ".wrl")
    then codes "model/vrml"
    else if str_eq dot (codes ".midi") || str_eq dot (codes ".mid")
    then codes "audio/midi"
    else if str_eq dot (codes ".mp3")
    then codes "audio/mpeg"
    else if str_eq dot (codes ".ogg")
    then codes "application/ogg"
    else if str_eq dot (codes ".pac")
    then codes "application/x-ns-proxy-autoconfig"
    else plain_text

unfoldable pub get_file_type : List ℕ → List ℕ
unfolding strrchr type_of_suffix
get_file_type name = elim (strrchr name b'.') [ none ↦ plain_text | some dot ↦ type_of_suffix dot ]
