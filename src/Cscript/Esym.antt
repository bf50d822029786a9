-- ===== src/Cscript/Esym.antt =====
-- src/libcscript/decode-esym.c: the symbol of an errno value.
use errmark.Prelude.{
  ℕ, zero, suc, ◌-◌, Option, none, some, List, [], ◌∷◌, ℤ, pos, negsuc, Bytes, codes, ◌≡◌, refl,
  take, ltb, if◌then◌else◌, signed_decimal,
}
use Prim.Native.String.{String}

-- The entries of `errno_table`, from the index 0 on.
abbrev pub errno_symbols : List (Option String)
errno_symbols =
    none
    ∷ some "EPERM"
    ∷ some "ENOENT"
    ∷ some "ESRCH"
    ∷ some "EINTR"
    ∷ some "EIO"
    ∷ some "ENXIO"
    ∷ some "E2BIG"
    ∷ some "ENOEXEC"
    ∷ some "EBADF"
    ∷ some "ECHILD"
    ∷ some "EAGAIN"
    ∷ some "ENOMEM"
    ∷ some "EACCES"
    ∷ some "EFAULT"
    ∷ some "ENOTBLK"
    ∷ some "EBUSY"
    ∷ some "EEXIST"
    ∷ some "EXDEV"
    ∷ some "ENODEV"
    ∷ some "ENOTDIR"
    ∷ some "EISDIR"
    ∷ some "EINVAL"
    ∷ some "ENFILE"
    ∷ some "EMFILE"
    ∷ some "ENOTTY"
    ∷ some "ETXTBSY"
    ∷ some "EFBIG"
    ∷ some "ENOSPC"
    ∷ some "ESPIPE"
    ∷ some "EROFS"
    ∷ some "EMLINK"
    ∷ some "EPIPE"
    ∷ some "EDOM"
    ∷ some "ERANGE"
    ∷ some "EDEADLK"
    ∷ some "ENAMETOOLONG"
    ∷ some "ENOLCK"
    ∷ some "ENOSYS"
    ∷ some "ENOTEMPTY"
    ∷ some "ELOOP"
    ∷ none
    ∷ some "ENOMSG"
    ∷ some "EIDRM"
    ∷ some "ECHRNG"
    ∷ some "EL2NSYNC"
    ∷ some "EL3HLT"
    ∷ some "EL3RST"
    ∷ some "ELNRNG"
    ∷ some "EUNATCH"
    ∷ some "ENOCSI"
    ∷ some "EL2HLT"
    ∷ some "EBADE"
    ∷ some "EBADR"
    ∷ some "EXFULL"
    ∷ some "ENOANO"
    ∷ some "EBADRQC"
    ∷ some "EBADSLT"
    ∷ none
    ∷ some "EBFONT"
    ∷ some "ENOSTR"
    ∷ some "ENODATA"
    ∷ some "ETIME"
    ∷ some "ENOSR"
    ∷ some "ENONET"
    ∷ some "ENOPKG"
    ∷ some "EREMOTE"
    ∷ some "ENOLINK"
    ∷ some "EADV"
    ∷ some "ESRMNT"
    ∷ some "ECOMM"
    ∷ some "EPROTO"
    ∷ some "EMULTIHOP"
    ∷ some "EDOTDOT"
    ∷ some "EBADMSG"
    ∷ some "EOVERFLOW"
    ∷ some "ENOTUNIQ"
    ∷ some "EBADFD"
    ∷ some "EREMCHG"
    ∷ some "ELIBACC"
    ∷ some "ELIBBAD"
    ∷ some "ELIBSCN"
    ∷ some "ELIBMAX"
    ∷ some "ELIBEXEC"
    ∷ some "EILSEQ"
    ∷ some "ERESTART"
    ∷ some "ESTRPIPE"
    ∷ some "EUSERS"
    ∷ some "ENOTSOCK"
    ∷ some "EDESTADDRREQ"
    ∷ some "EMSGSIZE"
    ∷ some "EPROTOTYPE"
    ∷ some "ENOPROTOOPT"
    ∷ some "EPROTONOSUPPORT"
    ∷ some "ESOCKTNOSUPPORT"
    ∷ some "EOPNOTSUPP"
    ∷ some "EPFNOSUPPORT"
    ∷ some "EAFNOSUPPORT"
    ∷ some "EADDRINUSE"
    ∷ some "EADDRNOTAVAIL"
    ∷ some "ENETDOWN"
    ∷ some "ENETUNREACH"
    ∷ some "ENETRESET"
    ∷ some "ECONNABORTED"
    ∷ some "ECONNRESET"
    ∷ some "ENOBUFS"
    ∷ some "EISCONN"
    ∷ some "ENOTCONN"
    ∷ some "ESHUTDOWN"
    ∷ some "ETOOMANYREFS"
    ∷ some "ETIMEDOUT"
    ∷ some "ECONNREFUSED"
    ∷ some "EHOSTDOWN"
    ∷ some "EHOSTUNREACH"
    ∷ some "EALREADY"
    ∷ some "EINPROGRESS"
    ∷ some "ESTALE"
    ∷ some "EUCLEAN"
    ∷ some "ENOTNAM"
    ∷ some "ENAVAIL"
    ∷ some "EISNAM"
    ∷ some "EREMOTEIO"
    ∷ some "EDQUOT"
    ∷ some "ENOMEDIUM"
    ∷ some "EMEDIUMTYPE"
    ∷ some "ECANCELED"
    ∷ some "ENOKEY"
    ∷ some "EKEYEXPIRED"
    ∷ some "EKEYREVOKED"
    ∷ some "EKEYREJECTED"
    ∷ some "EOWNERDEAD"
    ∷ some "ENOTRECOVERABLE"
    ∷ some "ERFKILL"
    ∷ some "EHWPOISON"
    ∷ []

-- errno_table[err], with NULL where there is no entry
errno_table : List (Option String) → ℕ → Option Bytes
errno_table [] n = none
errno_table (none ∷ l) zero = none
errno_table (some sym ∷ l) zero = some (codes sym)
errno_table (e ∷ l) (suc n) = errno_table l n

-- snprintf(buf, bufsz, …) leaves in `buf` what of the text fits, with a final NUL.
abbrev pub snprintf : ℕ → Bytes → Bytes
snprintf bufsz text = take (bufsz - 1) text

abbrev pub errno_table_size : ℕ
errno_table_size = 134

unfoldable pub known_esym : ℤ → Option Bytes
unfolding errno_table
known_esym (pos n) = if ltb n errno_table_size then errno_table errno_symbols n else none
known_esym (negsuc n) = none

-- The string that is pointed to by what `decode_esym_r` returns.
unfoldable pub decode_esym_r : ℕ → ℤ → Bytes
unfolding known_esym signed_decimal
decode_esym_r bufsz err = elim (known_esym err) [
  | some sym ↦ sym
  | none ↦ snprintf bufsz (b'#' ∷ signed_decimal err)
]

esym_tests :
    (decode_esym_r 32 (pos 5) ≡ codes "EIO")
    × (decode_esym_r 32 (negsuc 6) ≡ codes "#-7")
    × (decode_esym_r 32 (pos 133) ≡ codes "EHWPOISON")
    × (decode_esym_r 32 (pos 41) ≡ codes "#41")
unfolding decode_esym_r
esym_tests = (refl, refl, refl, refl)
