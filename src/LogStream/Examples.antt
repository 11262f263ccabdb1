-- ===== src/LogStream/Examples.antt =====
-- netlib/base/LogStream.cc: -1970 as text.
use netlib.Base.{◌≡◌, refl, true, [], ◌∷◌, arith}
use netlib.LogStream.{digits, convert, integer, text, insert, is_numeric}
use netlib.LogStream.Fits.{Whole, insert-Whole}

minus_1970 : convert true 1970 ≡ 45 ∷ 49 ∷ 57 ∷ 55 ∷ 48 ∷ []
unfolding convert digits
minus_1970 = refl

-- A number behind two bytes.
insert-Whole_example :
    Whole 40 31 (text (integer true 1970)) (1 ∷ 2 ∷ []) (insert 40 (integer true 1970) (1 ∷ 2 ∷ []))
unfolding is_numeric
insert-Whole_example = insert-Whole 40 (integer true 1970) (1 ∷ 2 ∷ []) (omega arith) (omega arith)
