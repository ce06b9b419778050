-- ===== src/Convert/Alphabet.antt =====
-- The two tables of System/Convert.cpp.
use nuke.Base.{ℕ, List, [], ◌∷◌, get_or}
use nuke.Base.Int.{ℤ, pos, negsuc}

-- get_alphabet
abbrev pub alphabet : List ℕ
alphabet =
    65 ∷ 66 ∷ 67 ∷ 68 ∷ 69 ∷ 70 ∷ 71 ∷ 72 ∷ 73 ∷ 74 ∷ 75 ∷ 76 ∷ 77 ∷ 78 ∷ 79 ∷ 80 ∷ 81 ∷ 82 ∷ 83
    ∷ 84 ∷ 85 ∷ 86 ∷ 87 ∷ 88 ∷ 89 ∷ 90 ∷ 97 ∷ 98 ∷ 99 ∷ 100 ∷ 101 ∷ 102 ∷ 103 ∷ 104 ∷ 105 ∷ 106
    ∷ 107 ∷ 108 ∷ 109 ∷ 110 ∷ 111 ∷ 112 ∷ 113 ∷ 114 ∷ 115 ∷ 116 ∷ 117 ∷ 118 ∷ 119 ∷ 120 ∷ 121 ∷ 122
    ∷ 48 ∷ 49 ∷ 50 ∷ 51 ∷ 52 ∷ 53 ∷ 54 ∷ 55 ∷ 56 ∷ 57 ∷ 43 ∷ 47 ∷ []

-- get_inverse, where `no` stands for -1.
abbrev pub no : ℤ
no = negsuc 0

abbrev pub inverse_table : List ℤ
inverse_table =
    no
    ∷ no
    ∷ no
    ∷ no
    ∷ no
    ∷ no
    ∷ no
    ∷ no
    ∷ no
    ∷ no
    ∷ no
    ∷ no
    ∷ no
    ∷ no
    ∷ no
    ∷ no
    ∷ no
    ∷ no
    ∷ no
    ∷ no
    ∷ no
    ∷ no
    ∷ no
    ∷ no
    ∷ no
    ∷ no
    ∷ no
    ∷ no
    ∷ no
    ∷ no
    ∷ no
    ∷ no
    ∷ no
    ∷ no
    ∷ no
    ∷ no
    ∷ no
    ∷ no
    ∷ no
    ∷ no
    ∷ no
    ∷ no
    ∷ no
    ∷ pos 62
    ∷ no
    ∷ no
    ∷ no
    ∷ pos 63
    ∷ pos 52
    ∷ pos 53
    ∷ pos 54
    ∷ pos 55
    ∷ pos 56
    ∷ pos 57
    ∷ pos 58
    ∷ pos 59
    ∷ pos 60
    ∷ pos 61
    ∷ no
    ∷ no
    ∷ no
    ∷ no
    ∷ no
    ∷ no
    ∷ no
    ∷ pos 0
    ∷ pos 1
    ∷ pos 2
    ∷ pos 3
    ∷ pos 4
    ∷ pos 5
    ∷ pos 6
    ∷ pos 7
    ∷ pos 8
    ∷ pos 9
    ∷ pos 10
    ∷ pos 11
    ∷ pos 12
    ∷ pos 13
    ∷ pos 14
    ∷ pos 15
    ∷ pos 16
    ∷ pos 17
    ∷ pos 18
    ∷ pos 19
    ∷ pos 20
    ∷ pos 21
    ∷ pos 22
    ∷ pos 23
    ∷ pos 24
    ∷ pos 25
    ∷ no
    ∷ no
    ∷ no
    ∷ no
    ∷ no
    ∷ no
    ∷ pos 26
    ∷ pos 27
    ∷ pos 28
    ∷ pos 29
    ∷ pos 30
    ∷ pos 31
    ∷ pos 32
    ∷ pos 33
    ∷ pos 34
    ∷ pos 35
    ∷ pos 36
    ∷ pos 37
    ∷ pos 38
    ∷ pos 39
    ∷ pos 40
    ∷ pos 41
    ∷ pos 42
    ∷ pos 43
    ∷ pos 44
    ∷ pos 45
    ∷ pos 46
    ∷ pos 47
    ∷ pos 48
    ∷ pos 49
    ∷ pos 50
    ∷ pos 51
    ∷ no
    ∷ no
    ∷ no
    ∷ no
    ∷ no
    ∷ no
    ∷ no
    ∷ no
    ∷ no
    ∷ no
    ∷ no
    ∷ no
    ∷ no
    ∷ no
    ∷ no
    ∷ no
    ∷ no
    ∷ no
    ∷ no
    ∷ no
    ∷ no
    ∷ no
    ∷ no
    ∷ no
    ∷ no
    ∷ no
    ∷ no
    ∷ no
    ∷ no
    ∷ no
    ∷ no
    ∷ no
    ∷ no
    ∷ no
    ∷ no
    ∷ no
    ∷ no
    ∷ no
    ∷ no
    ∷ no
    ∷ no
    ∷ no
    ∷ no
    ∷ no
    ∷ no
    ∷ no
    ∷ no
    ∷ no
    ∷ no
    ∷ no
    ∷ no
    ∷ no
    ∷ no
    ∷ no
    ∷ no
    ∷ no
    ∷ no
    ∷ no
    ∷ no
    ∷ no
    ∷ no
    ∷ no
    ∷ no
    ∷ no
    ∷ no
    ∷ no
    ∷ no
    ∷ no
    ∷ no
    ∷ no
    ∷ no
    ∷ no
    ∷ no
    ∷ no
    ∷ no
    ∷ no
    ∷ no
    ∷ no
    ∷ no
    ∷ no
    ∷ no
    ∷ no
    ∷ no
    ∷ no
    ∷ no
    ∷ no
    ∷ no
    ∷ no
    ∷ no
    ∷ no
    ∷ no
    ∷ no
    ∷ no
    ∷ no
    ∷ no
    ∷ no
    ∷ no
    ∷ no
    ∷ no
    ∷ no
    ∷ no
    ∷ no
    ∷ no
    ∷ no
    ∷ no
    ∷ no
    ∷ no
    ∷ no
    ∷ no
    ∷ no
    ∷ no
    ∷ no
    ∷ no
    ∷ no
    ∷ no
    ∷ no
    ∷ no
    ∷ no
    ∷ no
    ∷ no
    ∷ no
    ∷ no
    ∷ no
    ∷ no
    ∷ no
    ∷ no
    ∷ no
    ∷ no
    ∷ no
    ∷ no
    ∷ no
    ∷ no
    ∷ no
    ∷ []

-- `tab[value]`; every index of the coder is below 64.
unfoldable pub symbol : ℕ → ℕ
symbol value = get_or alphabet value 0

-- `inverse[*in]`
unfoldable pub inverse : ℕ → ℤ
inverse char = get_or inverse_table char no
