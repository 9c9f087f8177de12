-- ===== src/Value/Normal.antt =====
-- The normal form of a value: normalising twice is normalising once.
use go_cell_protocol.Prelude.{◌≡◌, refl, ap, arith}
use go_cell_protocol.Value.{
  Codec, Value, Items, Fields, null, bool, number, int, uint, float, str, bytes, list, obj, nil,
  cons, end, field, normalize, normalize_items, normalize_fields,
}

mutual
  unfolding normalize

  idem : (k : Codec) (v : Value) → normalize k (normalize k v) ≡ normalize k v
  idem k null = refl
  idem k (bool b) = refl
  idem k (number s) = ground arith
  idem k (int i) = refl
  idem k (uint n) = refl
  idem k (float f) = ground arith
  idem k (str s) = refl
  idem k (bytes b) = refl
  idem k (list xs) = ap list (idem_items k xs)
  idem k (obj fs) = ap obj (idem_fields k fs)

  idem_items :
      (k : Codec) (xs : Items) → normalize_items k (normalize_items k xs) ≡ normalize_items k xs
  idem_items k nil = refl
  idem_items k (cons x xs) = cc (idem k x, idem_items k xs)

  idem_fields :
      (k : Codec) (fs : Fields) → normalize_fields k (normalize_fields k fs) ≡ normalize_fields k fs
  idem_fields k end = refl
  idem_fields k (field key v fs) = cc (idem k v, idem_fields k fs)

-- Normalising a value that is already normal changes nothing, for every value and every codec.
pub normalize-normalize : (k : Codec) (v : Value) → normalize k (normalize k v) ≡ normalize k v
normalize-normalize k v = idem k v
