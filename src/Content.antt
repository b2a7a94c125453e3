-- ===== src/Content.antt =====
-- content.py: the grammar of the `content_type` label, the decoding of the prim: scheme, and the
-- registry of handlers. A `str` is the list of its UTF-8 bytes, as in the blocks.
pub mod Labels
pub mod Integers
pub mod Registry
use python_zipline.Base.{
  ℕ, ◌-◌, ◌*◌, ◌^◌, leb, Bool, true, false, not, ◌&&◌, ◌||◌, Option, none, some, List, [], ◌∷◌, ltb,
  ◌==◌, if◌then◌else◌, length, is_some,
}
use python_zipline.Base.Int.{ℤ, pos, negsuc}
use python_zipline.Base.Dict.{Eq, nat_eq, list_eq, pair_eq, contains, Dict, lookup, has, insert}
use python_zipline.Base.Outcome.{Outcome, ok, raised, value_error, ◌>>◌, guard}
use python_zipline.Blocks.Types.{Bytes, Text}
use python_zipline.Frame.{unpack}

abbrev pub colon : ℕ
colon = 58

abbrev pub semicolon : ℕ
semicolon = 59

-- The names of the schemes: prim, mime, dec, net.
abbrev pub scheme_prim : Text
scheme_prim = 112 ∷ 114 ∷ 105 ∷ 109 ∷ []

abbrev pub scheme_mime : Text
scheme_mime = 109 ∷ 105 ∷ 109 ∷ 101 ∷ []

abbrev pub scheme_dec : Text
scheme_dec = 100 ∷ 101 ∷ 99 ∷ []

abbrev pub scheme_net : Text
scheme_net = 110 ∷ 101 ∷ 116 ∷ []

-- The first letters of the integer tokens.
abbrev pub letter_u : ℕ
letter_u = 117

abbrev pub letter_i : ℕ
letter_i = 105

-- u8, i8, u16, i16, u32, i32, u64, i64
abbrev pub prim_widths : Dict Text ℕ
prim_widths =
    (letter_u ∷ 56 ∷ [], 1)
    ∷ (letter_i ∷ 56 ∷ [], 1)
    ∷ (letter_u ∷ 49 ∷ 54 ∷ [], 2)
    ∷ (letter_i ∷ 49 ∷ 54 ∷ [], 2)
    ∷ (letter_u ∷ 51 ∷ 50 ∷ [], 4)
    ∷ (letter_i ∷ 51 ∷ 50 ∷ [], 4)
    ∷ (letter_u ∷ 54 ∷ 52 ∷ [], 8)
    ∷ (letter_i ∷ 54 ∷ 52 ∷ [], 8)
    ∷ []

-- bytes
abbrev pub prim_bytes : Text
prim_bytes = 98 ∷ 121 ∷ 116 ∷ 101 ∷ 115 ∷ []

-- ip, ethernet
abbrev pub net_link_types : Dict Text ℕ
net_link_types =
    (105 ∷ 112 ∷ [], 101) ∷ (101 ∷ 116 ∷ 104 ∷ 101 ∷ 114 ∷ 110 ∷ 101 ∷ 116 ∷ [], 1) ∷ []

-- `text.partition(separator)` without the separator itself, `none` where the text has none.
unfoldable pub partition : ℕ → Text → Option (Text × Text)
partition separator [] = none
partition separator (c ∷ cs) =
    let rest = partition separator cs in
    if c == separator
    then some ([], cs)
    else elim rest [ none ↦ none | some (before, after) ↦ some (c ∷ before, after) ]

pub record ContentType : Type 0 where
  pub scheme : Text
  pub value : Text

parsed : Text → Option (Text × Text) → ContentType
parsed label none = record { scheme = []; value = label }
parsed label (some (scheme, value)) = record { scheme = scheme; value = value }

-- ContentType.parse
unfoldable pub parse : Text → ContentType
unfolding partition parsed
parse label = parsed label (partition colon label)

abbrev pub is_prim : ContentType → Bool
is_prim label = list_eq.beq label.scheme scheme_prim

abbrev pub is_net : ContentType → Bool
is_net label = list_eq.beq label.scheme scheme_net

unfoldable pub link_type : ContentType → Option ℕ
unfolding lookup
link_type label = if is_net label then lookup label.value net_link_types else none

-- Why a prim: token cannot be honoured.
pub data PrimFault : Type 0 where
  illegal_token : PrimFault
  -- the width that the token requires, and the length of the payload
  wrong_width : ℕ → ℕ → PrimFault

width_fault : ℕ → Option ℕ → Option PrimFault
width_fault payload_len none = some illegal_token
width_fault payload_len (some width) =
    if payload_len == width then none else some (wrong_width width payload_len)

unfoldable pub prim_fault : Bytes → Text → Option PrimFault
unfolding width_fault lookup
prim_fault payload token =
    if list_eq.beq token prim_bytes
    then none
    else width_fault (length payload) (lookup token prim_widths)

-- A net: token that cannot be honoured; there is one reason only.
unfoldable pub net_fault : Text → Bool
unfolding has
net_fault token = not (has token net_link_types)

-- What a payload is read as.
pub data PrimValue : Type 0 where
  integer_value : ℤ → PrimValue
  bytes_value : Bytes → PrimValue

-- `token.startswith("i")`
abbrev pub is_signed : Text → Bool
is_signed [] = false
is_signed (c ∷ cs) = c == letter_i

-- `int.from_bytes(payload, "little", signed=signed)`
unfoldable pub int_from_bytes : Bytes → Bool → ℤ
int_from_bytes payload signed =
    let n = unpack payload in
    let size = 256 ^ length payload in
    if signed && leb size (2 * n) then negsuc (size - 1 - n) else pos n

unfoldable pub decode_prim : Bytes → Text → Option PrimValue
unfolding prim_fault int_from_bytes
decode_prim payload token =
    if is_some (prim_fault payload token)
    then none
    else if list_eq.beq token prim_bytes
    then some (bytes_value payload)
    else some (integer_value (int_from_bytes payload (is_signed token)))

first_part : Text → Option (Text × Text) → Text
first_part whole none = whole
first_part whole (some (before, after)) = before

-- ContentRegistry. A handler is a function of the caller, of which only the value is used.
pub record ContentRegistry (Handler : Type 0) : Type 0 where
  pub mime : Dict Text Handler
  pub dec : Dict (Text × Text) Handler
  pub net : Dict Text Handler

abbrev pub content_registry : {Handler : Type 0} → ContentRegistry Handler
content_registry = record { mime = []; dec = []; net = [] }

module _ {Handler : Type 0} where
  unfoldable pub register_dec :
      Text → Text → Handler → ContentRegistry Handler → Outcome (ContentRegistry Handler)
  unfolding insert
  register_dec decoder_name token handler r = do
    guard (ltb 0 (length decoder_name) && ltb 0 (length token)) value_error
    ok (record r { dec = insert (decoder_name, token) handler r.dec })

  unfoldable pub register_net :
      Text → Handler → ContentRegistry Handler → Outcome (ContentRegistry Handler)
  unfolding net_fault insert
  register_net token handler r = do
    guard (not (net_fault token)) value_error
    ok (record r { net = insert token handler r.net })

  dec_handler : ContentType → Option Text → ContentRegistry Handler → Option Handler
  unfolding lookup
  dec_handler label none r = none
  dec_handler label (some name) r = lookup (name, label.value) r.dec

-- `strip_lower` is `str.strip` followed by `str.lower`, over all of Unicode.
unfoldable pub media_type_of : (Text → Text) → Text → Text
unfolding partition first_part
media_type_of strip_lower value = strip_lower (first_part value (partition semicolon value))

module _ {Handler : Type 0} (strip_lower : Text → Text) where
  unfoldable pub register_mime :
      Text → Handler → ContentRegistry Handler → Outcome (ContentRegistry Handler)
  unfolding media_type_of insert
  register_mime media_type handler r = do
    guard (not (contains media_type semicolon)) value_error
    guard (ltb 0 (length (media_type_of strip_lower media_type))) value_error
    ok (record r { mime = insert (media_type_of strip_lower media_type) handler r.mime })

  -- `handler`: the scheme chooses the table.
  unfoldable pub find_handler : ContentType → Option Text → ContentRegistry Handler → Option Handler
  unfolding media_type_of lookup dec_handler
  find_handler label decoder_name r =
      if list_eq.beq label.scheme scheme_mime
      then lookup (media_type_of strip_lower label.value) r.mime
      else if list_eq.beq label.scheme scheme_dec && is_some decoder_name
      then dec_handler label decoder_name r
      else if list_eq.beq label.scheme scheme_net
      then lookup label.value r.net
      else none
