-- ===== src/Kbd/Map.antt =====
-- drivers/keyboard_map.h: the two Dvorak tables. C fills the rest of the 128 entries with zeros.
use shed_kernel.Prelude.{ℕ, List, [], ◌∷◌, ◌++◌, replicate}

unfoldable pub keyboard_map : List ℕ
keyboard_map =
    (0 ∷ 27 ∷ 49 ∷ 50 ∷ 51 ∷ 52 ∷ 53 ∷ 54 ∷ 55 ∷ 56 ∷ 57 ∷ 48 ∷ 91 ∷ 93 ∷ 8 ∷ 9 ∷ 39 ∷ 44 ∷ 46 ∷ 112
      ∷ 121 ∷ 102 ∷ 103 ∷ 99 ∷ 114 ∷ 108 ∷ 47 ∷ 61 ∷ 10 ∷ 0 ∷ 97 ∷ 111 ∷ 101 ∷ 117 ∷ 105 ∷ 100 ∷ 104
      ∷ 116 ∷ 110 ∷ 115 ∷ 45 ∷ 96 ∷ 0 ∷ 92 ∷ 59 ∷ 113 ∷ 106 ∷ 107 ∷ 120 ∷ 98 ∷ 109 ∷ 119 ∷ 118 ∷ 122
      ∷ 0 ∷ 42 ∷ 0 ∷ 32 ∷ 0 ∷ 0 ∷ 0 ∷ 0 ∷ 0 ∷ 0 ∷ 0 ∷ 0 ∷ 0 ∷ 0 ∷ 0 ∷ 0 ∷ 0 ∷ 0 ∷ 0 ∷ 0 ∷ 45 ∷ 0 ∷ 0
      ∷ 0 ∷ 43 ∷ 0 ∷ 0 ∷ 0 ∷ 0 ∷ 0 ∷ 0 ∷ 0 ∷ 0 ∷ 0 ∷ 0 ∷ 0 ∷ [])
    ++ replicate 38 0

unfoldable pub keyboard_map_shift : List ℕ
keyboard_map_shift =
    (0 ∷ 27 ∷ 33 ∷ 64 ∷ 35 ∷ 36 ∷ 37 ∷ 94 ∷ 38 ∷ 42 ∷ 40 ∷ 41 ∷ 123 ∷ 125 ∷ 8 ∷ 9 ∷ 34 ∷ 60 ∷ 62
      ∷ 80 ∷ 89 ∷ 70 ∷ 71 ∷ 67 ∷ 82 ∷ 76 ∷ 63 ∷ 43 ∷ 10 ∷ 0 ∷ 65 ∷ 79 ∷ 69 ∷ 85 ∷ 73 ∷ 68 ∷ 72 ∷ 84
      ∷ 78 ∷ 83 ∷ 95 ∷ 126 ∷ 0 ∷ 124 ∷ 58 ∷ 81 ∷ 74 ∷ 75 ∷ 88 ∷ 66 ∷ 77 ∷ 87 ∷ 86 ∷ 90 ∷ 0 ∷ 42 ∷ 0
      ∷ 32 ∷ 0 ∷ 0 ∷ 0 ∷ 0 ∷ 0 ∷ 0 ∷ 0 ∷ 0 ∷ 0 ∷ 0 ∷ 0 ∷ 0 ∷ 0 ∷ 0 ∷ 0 ∷ 0 ∷ 45 ∷ 0 ∷ 0 ∷ 0 ∷ 43 ∷ 0
      ∷ 0 ∷ 0 ∷ 0 ∷ 0 ∷ 0 ∷ 0 ∷ 0 ∷ 0 ∷ 0 ∷ 0 ∷ [])
    ++ replicate 38 0
