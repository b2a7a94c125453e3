-- ===== src/Blocks/FixedEncoder.antt =====
-- `Record._encode` of blocks.py beside the generic walk, `_encode_options`.
use mathlib.Core.List.{append_assoc}
use python_zipline.Base.{ℕ, ◌≡◌, refl, sym, ap, ◌∙◌, Option, none, some, List, [], ◌∷◌, ◌++◌}
use python_zipline.Base.Int.{ℤ, pos, negsuc}
use python_zipline.Base.Outcome.{Outcome, ok, raised, ◌>>=◌}
use python_zipline.Blocks.Types.{Bytes, RawOption, Record}
use python_zipline.Blocks.Values.{chunks, pack_span}
use python_zipline.Blocks.Options.{encode_raws, options, bytes_option, uint_option, i64_option}
use python_zipline.Blocks.Encode.{
  with_body, record_body, record_options, opt_u32, opt_i64, opt_u16, encode_record,
  max_spans_per_option,
}
use python_zipline.Frame.{pack, pack_i64, pad4, padded, encode_option, option_bytes}

abbrev join_to : Outcome Bytes → Outcome Bytes → Outcome Bytes
join_to first rest = first >>= λ a. rest >>= λ b. ok (a ++ b)

join_to_assoc : (p q r : Outcome Bytes) → join_to (join_to p q) r ≡ join_to p (join_to q r)
join_to_assoc (raised e) q r = refl
join_to_assoc (ok a) (raised e) r = refl
join_to_assoc (ok a) (ok b) (raised e) = refl
join_to_assoc (ok a) (ok b) (ok c) = ap ok (append_assoc a b c)

join_to_nil : (p : Outcome Bytes) → p ≡ join_to (ok []) p
join_to_nil (raised e) = refl
join_to_nil (ok a) = refl

encode_raws-append :
    (xs ys : List RawOption) → encode_raws (xs ++ ys) ≡ join_to (encode_raws xs) (encode_raws ys)
unfolding encode_raws
encode_raws-append [] ys = join_to_nil (encode_raws ys)
encode_raws-append (o ∷ xs) ys =
    ap (join_to (encode_option o.option_id o.value)) (encode_raws-append xs ys)
    ∙ sym (join_to_assoc (encode_option o.option_id o.value) (encode_raws xs) (encode_raws ys))

encode_raws-u32 : (id : ℕ) (o : Option ℕ) → encode_raws (uint_option id 4 o) ≡ ok (opt_u32 id o)
unfolding encode_raws encode_option option_bytes padded pad4 pack opt_u32
encode_raws-u32 id none = refl
encode_raws-u32 id (some n) = refl

encode_raws-u16 : (id : ℕ) (o : Option ℕ) → encode_raws (uint_option id 2 o) ≡ ok (opt_u16 id o)
unfolding encode_raws encode_option option_bytes padded pad4 pack opt_u16
encode_raws-u16 id none = refl
encode_raws-u16 id (some n) = refl

encode_raws-i64 : (id : ℕ) (o : Option ℤ) → encode_raws (i64_option id o) ≡ ok (opt_i64 id o)
unfolding encode_raws encode_option option_bytes padded pad4 pack pack_i64 opt_i64
encode_raws-i64 id none = refl
encode_raws-i64 id (some (pos n)) = refl
encode_raws-i64 id (some (negsuc n)) = refl

-- The two orders of the joins, for any results of the parts that may fail.
joins :
    (bd payload s a t d : Bytes) (comment packed kind role extras : Outcome Bytes)
    → (do
      c ← comment
      p ← packed
      k ← kind
      l ← role
      e ← extras
      ok (bd ++ (payload ++ (c ++ (s ++ (a ++ (t ++ (p ++ (d ++ (k ++ (l ++ e)))))))))))
      ≡ (join_to comment (
            join_to (ok s) (
              join_to (ok a) (
                join_to
                  (ok t)
                  (join_to packed (join_to (ok d) (join_to kind (join_to role extras)))))))
          >>= λ rest. ok ((bd ++ payload) ++ rest))
joins bd payload s a t d (raised e) p k l x = refl
joins bd payload s a t d (ok c) (raised e) k l x = refl
joins bd payload s a t d (ok c) (ok p) (raised e) l x = refl
joins bd payload s a t d (ok c) (ok p) (ok k) (raised e) x = refl
joins bd payload s a t d (ok c) (ok p) (ok k) (ok l) (raised e) = refl
joins bd payload s a t d (ok c) (ok p) (ok k) (ok l) (ok e) =
    ap ok (sym (append_assoc bd payload (c ++ (s ++ (a ++ (t ++ (p ++ (d ++ (k ++ (l ++ e))))))))))

-- Each kind of option, and then the rest.
encode_raws-after :
    (xs ys : List RawOption) (p q : Outcome Bytes)
    → encode_raws xs ≡ p
    → encode_raws ys ≡ q
    → encode_raws (xs ++ ys) ≡ join_to p q
encode_raws-after xs ys p q h k = encode_raws-append xs ys ∙ rw (h, k) refl

-- The fixed encoder of a record writes what the generic walk of the table of its options writes, and
-- raises where the walk raises, for every record.
pub encode_record-record_options :
    (r : Record)
    → encode_record r ≡ with_body (record_body r ++ padded r.payload) (record_options r)
unfolding encode_record record_options
encode_record-record_options r =
    joins (record_body r) (padded r.payload) (opt_u32 0x70 r.seq_start) (opt_u32 0x72 r.ack)
      (opt_i64 0x73 r.ts_first) (opt_u16 0x90 r.decoder_id)
      (encode_raws (bytes_option 0x01 r.comment))
      (encode_raws (options 0x80 (chunks pack_span max_spans_per_option r.spans)))
      (encode_raws (bytes_option 0x91 r.content_type)) (encode_raws (bytes_option 0x92 r.role))
      (encode_raws r.extra_options)
    ∙ ap (λ (p : Outcome Bytes). p >>= λ rest. ok ((record_body r ++ padded r.payload) ++ rest))
        (sym (
          encode_raws-after _ _ _ _ refl (
            encode_raws-after _ _ _ _ (encode_raws-u32 0x70 r.seq_start) (
              encode_raws-after _ _ _ _ (encode_raws-u32 0x72 r.ack) (
                encode_raws-after _ _ _ _ (encode_raws-i64 0x73 r.ts_first) (
                  encode_raws-after _ _ _ _ refl (
                    encode_raws-after _ _ _ _ (encode_raws-u16 0x90 r.decoder_id)
                      (encode_raws-after _ _ _ _ refl (encode_raws-after _ _ _ _ refl refl)))))))))
