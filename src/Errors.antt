-- ===== src/Errors.antt =====
-- errors.go: the sentinel errors, and the structured error that wraps one of them.
use fastcopier.Base.{ℕ, String, ◌<>◌, ◌==◌, string_eq, if◌then◌else◌, ◌||◌, not}
use fastcopier.GoTypes.{Types}

pub data Sentinel : Type 0 where
  type_invalid type_non_copyable value_invalid field_require_copying circular_reference : Sentinel

-- What an error wraps: a sentinel itself, or `fmt.Errorf("%w: …")` with its text.
pub data Cause : Type 0 where
  bare : Sentinel → Cause
  detailed : Sentinel → String → Cause

pub record CopyError : Type 0 where
  pub src_type : String
  pub dst_type : String
  pub src_field : String
  pub dst_field : String
  pub inner : Cause

-- `wrapped` is `fmt.Errorf("%w: …")` with its text; `copy_error` is a *CopyError.
pub data Error : Type 0 where
  wrapped : Sentinel → String → Error
  copy_error : CopyError → Error

-- The error inside a *CopyError that errors.As finds, or else the error as it is.
abbrev pub cause_of : Error → Cause
cause_of (wrapped s m) = detailed s m
cause_of (copy_error e) = e.inner

abbrev pub cause_sentinel : Cause → Sentinel
cause_sentinel (bare s) = s
cause_sentinel (detailed s m) = s

-- What errors.Is finds, through Unwrap.
abbrev pub sentinel_of : Error → Sentinel
sentinel_of e = cause_sentinel (cause_of e)

abbrev pub sentinel_text : Sentinel → String
sentinel_text type_invalid = "invalid type"
sentinel_text type_non_copyable = "type is not copyable"
sentinel_text value_invalid = "invalid value"
sentinel_text field_require_copying = "field requires copying"
sentinel_text circular_reference = "circular reference detected"

abbrev pub cause_text : Cause → String
cause_text (bare s) = sentinel_text s
cause_text (detailed s m) = sentinel_text s <> ": " <> m

-- The method Error; `quote` is the `%q` of package fmt.
unfoldable pub error_text : (String → String) → CopyError → String
error_text quote e =
    let text = cause_text e.inner <> ": " <> e.src_type <> " -> " <> e.dst_type in
    if not (e.src_field == "") || not (e.dst_field == "")
    then (text
        <> " (field "
        <> quote (if e.src_field == "" then e.dst_field else e.src_field)
        <> ")")
    else text

module _ (T : Types) where
  abbrev pub new_copy_error : Sentinel → ℕ → ℕ → Error
  new_copy_error s src dst = copy_error (record {
    src_type = T.name src;
    dst_type = T.name dst;
    src_field = "";
    dst_field = "";
    inner = bare s;
  })

  abbrev pub new_field_copy_error : Cause → ℕ → ℕ → String → String → Error
  new_field_copy_error c src dst src_field dst_field = copy_error (record {
    src_type = T.name src;
    dst_type = T.name dst;
    src_field = src_field;
    dst_field = dst_field;
    inner = c;
  })

  -- `"%w: struct field '%v[%s]' requires copying"`
  abbrev pub requires_copying : ℕ → String → Error
  requires_copying t field =
      wrapped field_require_copying
        ("struct field '" <> T.name t <> "[" <> field <> "]' requires copying")
