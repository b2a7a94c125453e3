-- ===== src/Content/Registry.antt =====
-- The handlers of ContentRegistry: what a registration makes of the dispatch.
use python_zipline.Base.{
  ◌≡◌, refl, sym, ◌∙◌, Bool, true, false, ◌&&◌, Option, none, some, if◌then◌else◌, arith,
  Bool-cases, inl, inr,
}
use python_zipline.Base.Dict.{nat_eq, list_eq, pair_eq, lookup-insert}
use python_zipline.Base.Outcome.{Outcome, ok}
use python_zipline.Blocks.Types.{Text}
use python_zipline.Content.{
  scheme_mime, scheme_dec, scheme_net, ContentType, ContentRegistry, media_type_of, register_mime,
  register_dec, register_net, dec_handler, find_handler,
}

-- A call that registers a handler.
pub data Registration (Handler : Type 0) : Type 0 where
  mime_type : Text → Handler → Registration Handler
  dec_token : Text → Text → Handler → Registration Handler
  net_token : Text → Handler → Registration Handler

-- `decoder_name` is the given one, where one is given.
abbrev pub named : Option Text → Text → Bool
named none decoder_name = false
named (some name) decoder_name = list_eq.beq decoder_name name

abbrev pub handler_of : {Handler : Type 0} → Registration Handler → Handler
handler_of (mime_type media_type h) = h
handler_of (dec_token decoder_name token h) = h
handler_of (net_token token h) = h

-- A text is not two texts that differ.
not_both : (t a b : Text) → list_eq.beq a b ≡ false → (list_eq.beq t a && list_eq.beq t b) ≡ false
not_both t a b differ = elim (Bool-cases (list_eq.beq t a && list_eq.beq t b)) [
  | inr apart ↦ apart
  | inl both ↦
      let first : t ≡ a = (list_eq.beq_iff t a).0 (ground arith) in
      let second : t ≡ b = (list_eq.beq_iff t b).0 (ground arith) in
      let same : list_eq.beq a b ≡ true = (list_eq.beq_iff a b).1 (sym first ∙ second) in cc
]

module _ {Handler : Type 0} (strip_lower : Text → Text) where
  unfoldable pub register :
      Registration Handler → ContentRegistry Handler → Outcome (ContentRegistry Handler)
  register (mime_type media_type h) r = register_mime strip_lower media_type h r
  register (dec_token decoder_name token h) r = register_dec decoder_name token h r
  register (net_token token h) r = register_net token h r

  -- The labels that a registration speaks for.
  abbrev pub speaks_for : Registration Handler → ContentType → Option Text → Bool
  speaks_for (mime_type media_type h) label name =
      list_eq.beq label.scheme scheme_mime
      && list_eq.beq (media_type_of strip_lower media_type) (media_type_of strip_lower label.value)
  speaks_for (dec_token decoder_name token h) label name =
      list_eq.beq label.scheme scheme_dec
      && (named name decoder_name && list_eq.beq token label.value)
  speaks_for (net_token token h) label name =
      list_eq.beq label.scheme scheme_net && list_eq.beq token label.value

  mime-find_handler :
      (media_type : Text) (h : Handler) (label : ContentType) (name : Option Text)
      (r r' : ContentRegistry Handler)
      → register_mime strip_lower media_type h r ≡ ok r'
      → find_handler strip_lower label name r' ≡ (
          if speaks_for (mime_type media_type h) label name
          then some h
          else find_handler strip_lower label name r)
  unfolding register_mime find_handler dec_handler
  mime-find_handler media_type h label name r r' e =
      let stored =
        lookup-insert (media_type_of strip_lower label.value) (media_type_of strip_lower media_type)
          h r.mime in
      elim name [ none ↦ ground (arith, stored) | some n ↦ ground (arith, stored) ]

  dec-find_handler :
      (decoder_name token : Text) (h : Handler) (label : ContentType) (name : Option Text)
      (r r' : ContentRegistry Handler)
      → register_dec decoder_name token h r ≡ ok r'
      → find_handler strip_lower label name r' ≡ (
          if speaks_for (dec_token decoder_name token h) label name
          then some h
          else find_handler strip_lower label name r)
  unfolding register_dec find_handler dec_handler
  dec-find_handler decoder_name token h label none r r' e = ground arith
  dec-find_handler decoder_name token h label (some n) r r' e =
      let stored = lookup-insert (n, label.value) (decoder_name, token) h r.dec in
      ground (arith, stored, not_both label.scheme scheme_mime scheme_dec refl)

  net-find_handler :
      (token : Text) (h : Handler) (label : ContentType) (name : Option Text)
      (r r' : ContentRegistry Handler)
      → register_net token h r ≡ ok r'
      → find_handler strip_lower label name r' ≡ (
          if speaks_for (net_token token h) label name
          then some h
          else find_handler strip_lower label name r)
  unfolding register_net find_handler dec_handler
  net-find_handler token h label none r r' e =
      let stored = lookup-insert label.value token h r.net in
      let first = not_both label.scheme scheme_mime scheme_net refl in ground (arith, stored, first)
  net-find_handler token h label (some n) r r' e =
      let stored = lookup-insert label.value token h r.net in
      let first = not_both label.scheme scheme_mime scheme_net refl in
      let second = not_both label.scheme scheme_dec scheme_net refl in
      ground (arith, stored, first, second)

  -- A registration that is accepted serves exactly the labels that it speaks for; every other label is
  -- served as before.
  pub find_handler-register :
      (call : Registration Handler) (label : ContentType) (name : Option Text)
      (r r' : ContentRegistry Handler)
      → register call r ≡ ok r'
      → find_handler strip_lower label name r' ≡ (
          if speaks_for call label name
          then some (handler_of call)
          else find_handler strip_lower label name r)
  unfolding register
  find_handler-register (mime_type media_type h) label name r r' e =
      mime-find_handler media_type h label name r r' e
  find_handler-register (dec_token decoder_name token h) label name r r' e =
      dec-find_handler decoder_name token h label name r r' e
  find_handler-register (net_token token h) label name r r' e =
      net-find_handler token h label name r r' e
