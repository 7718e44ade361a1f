-- ===== src/Characters.antt =====
-- src/libs/libgroff/cset.cpp: the character classes that the other parts use, in the C locale.
use groff.Prelude.{ℕ, Bool, ◌&&◌, ◌||◌, leb}

abbrev pub csdigit : ℕ → Bool
csdigit c = leb b'0' c && leb c b'9'

abbrev pub csupper : ℕ → Bool
csupper c = leb b'A' c && leb c b'Z'

abbrev pub csxdigit : ℕ → Bool
csxdigit c = csdigit c || (leb b'A' c && leb c b'F') || (leb b'a' c && leb c b'f')
