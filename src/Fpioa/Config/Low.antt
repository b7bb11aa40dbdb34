-- ===== src/Fpioa/Config/Low.antt =====
-- Entries 0 to 127 of `function_config` of src/drivers/fpioa.c, in their order and in that of their
-- fields.
use k210_guard_bootloader.Prelude.{List, [], ◌∷◌}
use k210_guard_bootloader.Fpioa.Entry.{Assign, assign}

abbrev pub from_0 : List Assign
from_0 =
    assign 0 0x0 0 0 0 0 0 0 0 0 1 0 0 1 0 0 0 0
    ∷ assign 1 0x0 0 0 0 0 0 0 0 0 1 0 0 1 0 0 0 0
    ∷ assign 2 0x0 0 0 0 0 0 0 0 0 1 0 0 1 0 0 0 0
    ∷ assign 3 0xf 1 0 0 0 0 0 0 0 0 0 0 0 0 0 0 0
    ∷ assign 4 0xf 1 1 0 0 0 0 0 0 1 1 0 1 0 0 0 0
    ∷ assign 5 0xf 1 1 0 0 0 0 0 0 1 1 0 1 0 0 0 0
    ∷ assign 6 0xf 1 1 0 0 0 0 0 0 1 1 0 1 0 0 0 0
    ∷ assign 7 0xf 1 1 0 0 0 0 0 0 1 1 0 1 0 0 0 0
    ∷ []

abbrev pub from_8 : List Assign
from_8 =
    assign 8 0xf 1 1 0 0 0 0 0 0 1 1 0 1 0 0 0 0
    ∷ assign 9 0xf 1 1 0 0 0 0 0 0 1 1 0 1 0 0 0 0
    ∷ assign 10 0xf 1 1 0 0 0 0 0 0 1 1 0 1 0 0 0 0
    ∷ assign 11 0xf 1 1 0 0 0 0 0 0 1 1 0 1 0 0 0 0
    ∷ assign 12 0xf 1 0 0 0 0 0 0 0 0 0 0 0 0 0 0 0
    ∷ assign 13 0xf 1 0 0 0 0 0 0 0 0 0 0 0 0 0 0 0
    ∷ assign 14 0xf 1 0 0 0 0 0 0 0 0 0 0 0 0 0 0 0
    ∷ assign 15 0xf 1 0 0 0 0 0 0 0 0 0 0 0 0 0 0 0
    ∷ []

abbrev pub from_16 : List Assign
from_16 =
    assign 16 0x0 0 0 0 0 0 0 0 0 1 0 0 1 1 1 0 0
    ∷ assign 17 0xf 1 0 0 0 0 0 0 0 0 0 0 0 0 0 0 0
    ∷ assign 18 0x0 0 0 0 0 0 0 0 0 1 0 0 1 0 0 0 0
    ∷ assign 19 0xf 1 0 0 0 0 0 0 0 0 0 0 0 0 0 0 0
    ∷ assign 20 0x0 0 0 0 0 0 0 0 0 1 0 0 1 0 0 0 0
    ∷ assign 21 0x0 0 0 0 0 0 0 0 0 1 0 0 1 0 0 0 0
    ∷ assign 22 0xf 1 0 0 0 0 0 0 0 0 0 0 0 0 0 0 0
    ∷ assign 23 0xf 1 0 0 0 0 0 0 0 0 0 0 0 0 0 0 0
    ∷ []

abbrev pub from_24 : List Assign
from_24 =
    assign 24 0xf 1 0 0 0 0 0 0 0 1 0 0 1 0 0 0 0
    ∷ assign 25 0xf 1 0 0 0 0 0 0 0 1 0 0 1 0 0 0 0
    ∷ assign 26 0xf 1 0 0 0 0 0 0 0 1 0 0 1 0 0 0 0
    ∷ assign 27 0xf 1 0 0 0 0 0 0 0 1 0 0 1 0 0 0 0
    ∷ assign 28 0xf 1 0 0 0 0 0 0 0 1 0 0 1 0 0 0 0
    ∷ assign 29 0xf 1 0 0 0 0 0 0 0 1 0 0 1 0 0 0 0
    ∷ assign 30 0xf 1 0 0 0 0 0 0 0 1 0 0 1 0 0 0 0
    ∷ assign 31 0xf 1 0 0 0 0 0 0 0 1 0 0 1 0 0 0 0
    ∷ []

abbrev pub from_32 : List Assign
from_32 =
    assign 32 0xf 1 0 0 0 0 0 0 0 1 0 0 1 0 0 0 0
    ∷ assign 33 0xf 1 0 0 0 0 0 0 0 1 0 0 1 0 0 0 0
    ∷ assign 34 0xf 1 0 0 0 0 0 0 0 1 0 0 1 0 0 0 0
    ∷ assign 35 0xf 1 0 0 0 0 0 0 0 1 0 0 1 0 0 0 0
    ∷ assign 36 0xf 1 0 0 0 0 0 0 0 1 0 0 1 0 0 0 0
    ∷ assign 37 0xf 1 0 0 0 0 0 0 0 1 0 0 1 0 0 0 0
    ∷ assign 38 0xf 1 0 0 0 0 0 0 0 1 0 0 1 0 0 0 0
    ∷ assign 39 0xf 1 0 0 0 0 0 0 0 1 0 0 1 0 0 0 0
    ∷ []

abbrev pub from_40 : List Assign
from_40 =
    assign 40 0xf 1 0 0 0 0 0 0 0 1 0 0 1 0 0 0 0
    ∷ assign 41 0xf 1 0 0 0 0 0 0 0 1 0 0 1 0 0 0 0
    ∷ assign 42 0xf 1 0 0 0 0 0 0 0 1 0 0 1 0 0 0 0
    ∷ assign 43 0xf 1 0 0 0 0 0 0 0 1 0 0 1 0 0 0 0
    ∷ assign 44 0xf 1 0 0 0 0 0 0 0 1 0 0 1 0 0 0 0
    ∷ assign 45 0xf 1 0 0 0 0 0 0 0 1 0 0 1 0 0 0 0
    ∷ assign 46 0xf 1 0 0 0 0 0 0 0 1 0 0 1 0 0 0 0
    ∷ assign 47 0xf 1 0 0 0 0 0 0 0 1 0 0 1 0 0 0 0
    ∷ []

abbrev pub from_48 : List Assign
from_48 =
    assign 48 0xf 1 0 0 0 0 0 0 0 1 0 0 1 0 0 0 0
    ∷ assign 49 0xf 1 0 0 0 0 0 0 0 1 0 0 1 0 0 0 0
    ∷ assign 50 0xf 1 0 0 0 0 0 0 0 1 0 0 1 0 0 0 0
    ∷ assign 51 0xf 1 0 0 0 0 0 0 0 1 0 0 1 0 0 0 0
    ∷ assign 52 0xf 1 0 0 0 0 0 0 0 1 0 0 1 0 0 0 0
    ∷ assign 53 0xf 1 0 0 0 0 0 0 0 1 0 0 1 0 0 0 0
    ∷ assign 54 0xf 1 0 0 0 0 0 0 0 1 0 0 1 0 0 0 0
    ∷ assign 55 0xf 1 0 0 0 0 0 0 0 1 0 0 1 0 0 0 0
    ∷ []

abbrev pub from_56 : List Assign
from_56 =
    assign 56 0xf 1 0 0 0 0 0 0 0 1 0 0 1 0 0 0 0
    ∷ assign 57 0xf 1 0 0 0 0 0 0 0 1 0 0 1 0 0 0 0
    ∷ assign 58 0xf 1 0 0 0 0 0 0 0 1 0 0 1 0 0 0 0
    ∷ assign 59 0xf 1 0 0 0 0 0 0 0 1 0 0 1 0 0 0 0
    ∷ assign 60 0xf 1 0 0 0 0 0 0 0 1 0 0 1 0 0 0 0
    ∷ assign 61 0xf 1 0 0 0 0 0 0 0 1 0 0 1 0 0 0 0
    ∷ assign 62 0xf 1 0 0 0 0 0 0 0 1 0 0 1 0 0 0 0
    ∷ assign 63 0xf 1 0 0 0 0 0 0 0 1 0 0 1 0 0 0 0
    ∷ []

abbrev pub from_64 : List Assign
from_64 =
    assign 64 0x0 0 0 0 0 0 0 0 0 1 0 0 1 0 0 0 0
    ∷ assign 65 0xf 1 0 0 0 0 0 0 0 0 0 0 0 0 0 0 0
    ∷ assign 66 0x0 0 0 0 0 0 0 0 0 1 0 0 1 0 0 0 0
    ∷ assign 67 0xf 1 0 0 0 0 0 0 0 0 0 0 0 0 0 0 0
    ∷ assign 68 0x0 0 0 0 0 0 0 0 0 1 0 0 1 0 0 0 0
    ∷ assign 69 0xf 1 0 0 0 0 0 0 0 0 0 0 0 0 0 0 0
    ∷ assign 70 0xf 1 1 0 0 0 0 0 0 1 1 0 1 0 0 0 0
    ∷ assign 71 0xf 1 1 0 0 0 0 0 0 1 1 0 1 0 0 0 0
    ∷ []

abbrev pub from_72 : List Assign
from_72 =
    assign 72 0xf 1 1 0 0 0 0 0 0 1 1 0 1 0 0 0 0
    ∷ assign 73 0xf 1 1 0 0 0 0 0 0 1 1 0 1 0 0 0 0
    ∷ assign 74 0xf 1 1 0 0 0 0 0 0 1 1 0 1 0 0 0 0
    ∷ assign 75 0xf 1 1 0 0 0 0 0 0 1 1 0 1 0 0 0 0
    ∷ assign 76 0xf 1 1 0 0 0 0 0 0 1 1 0 1 0 0 0 0
    ∷ assign 77 0xf 1 1 0 0 0 0 0 0 1 1 0 1 0 0 0 0
    ∷ assign 78 0xf 1 0 0 0 0 0 0 0 0 0 0 0 0 0 0 0
    ∷ assign 79 0xf 1 0 0 0 0 0 0 0 0 0 0 0 0 0 0 0
    ∷ []

abbrev pub from_80 : List Assign
from_80 =
    assign 80 0xf 1 0 0 0 0 0 0 0 0 0 0 0 0 0 0 0
    ∷ assign 81 0xf 1 0 0 0 0 0 0 0 0 0 0 0 0 0 0 0
    ∷ assign 82 0x0 0 0 0 0 0 0 0 0 1 0 0 1 1 1 0 0
    ∷ assign 83 0xf 1 0 0 0 0 0 0 0 0 0 0 0 0 0 0 0
    ∷ assign 84 0xf 1 1 0 0 0 0 0 0 1 1 0 1 0 0 0 0
    ∷ assign 85 0x0 0 0 0 0 0 0 0 0 1 0 0 1 0 0 0 0
    ∷ assign 86 0x0 0 0 0 0 0 0 0 0 1 0 0 1 0 0 0 0
    ∷ assign 87 0xf 1 0 0 0 0 0 0 0 0 0 0 0 0 0 0 0
    ∷ []

abbrev pub from_88 : List Assign
from_88 =
    assign 88 0xf 1 0 0 0 0 0 0 0 0 0 0 0 0 0 0 0
    ∷ assign 89 0xf 1 0 0 0 0 0 0 0 0 0 0 0 0 0 0 0
    ∷ assign 90 0x0 0 0 0 0 0 0 0 0 1 0 0 1 0 0 0 0
    ∷ assign 91 0x0 0 0 0 0 0 0 0 0 1 0 0 1 0 0 0 0
    ∷ assign 92 0x0 0 0 0 0 0 0 0 0 1 0 0 1 0 0 0 0
    ∷ assign 93 0x0 0 0 0 0 0 0 0 0 1 0 0 1 0 0 0 0
    ∷ assign 94 0xf 1 0 0 0 0 0 0 0 0 0 0 0 0 0 0 0
    ∷ assign 95 0xf 1 0 0 0 0 0 0 0 0 0 0 0 0 0 0 0
    ∷ []

abbrev pub from_96 : List Assign
from_96 =
    assign 96 0xf 1 0 0 0 0 0 0 0 0 0 0 0 0 0 0 0
    ∷ assign 97 0xf 1 0 0 0 0 0 0 0 0 0 0 0 0 0 0 0
    ∷ assign 98 0xf 1 0 0 0 0 0 0 0 0 0 0 0 0 0 0 0
    ∷ assign 99 0xf 1 0 0 0 0 0 0 0 0 0 0 0 0 0 0 0
    ∷ assign 100 0xf 1 0 0 0 0 0 0 0 0 0 0 0 0 0 0 0
    ∷ assign 101 0x0 0 0 0 0 0 0 0 0 1 0 0 1 0 0 0 0
    ∷ assign 102 0x0 0 0 0 0 0 0 0 0 1 0 0 1 0 0 0 0
    ∷ assign 103 0x0 0 0 0 0 0 0 0 0 1 0 0 1 0 0 0 0
    ∷ []

abbrev pub from_104 : List Assign
from_104 =
    assign 104 0x0 0 0 0 0 0 0 0 0 1 0 0 1 0 0 0 0
    ∷ assign 105 0xf 1 0 0 0 0 0 0 0 0 0 0 0 0 0 0 0
    ∷ assign 106 0xf 1 0 0 0 0 0 0 0 0 0 0 0 0 0 0 0
    ∷ assign 107 0xf 1 0 0 0 0 0 0 0 0 0 0 0 0 0 0 0
    ∷ assign 108 0xf 1 0 0 0 0 0 0 0 0 0 0 0 0 0 0 0
    ∷ assign 109 0xf 1 0 0 0 0 0 0 0 0 0 0 0 0 0 0 0
    ∷ assign 110 0xf 1 0 0 0 0 0 0 0 0 0 0 0 0 0 0 0
    ∷ assign 111 0xf 1 0 0 0 0 0 0 0 0 0 0 0 0 0 0 0
    ∷ []

abbrev pub from_112 : List Assign
from_112 =
    assign 112 0x0 0 0 0 0 0 0 0 0 1 0 0 1 0 0 0 0
    ∷ assign 113 0x0 0 0 0 0 0 0 0 0 1 0 0 1 0 0 0 0
    ∷ assign 114 0x0 0 0 0 0 0 0 0 0 1 0 0 1 0 0 0 0
    ∷ assign 115 0x0 0 0 0 0 0 0 0 0 1 0 0 1 0 0 0 0
    ∷ assign 116 0xf 1 0 0 0 0 0 0 0 0 0 0 0 0 0 0 0
    ∷ assign 117 0xf 1 0 0 0 0 0 0 0 0 0 0 0 0 0 0 0
    ∷ assign 118 0xf 1 0 0 0 0 0 0 0 0 0 0 0 0 0 0 0
    ∷ assign 119 0xf 1 0 0 0 0 0 0 0 0 0 0 0 0 0 0 0
    ∷ []

abbrev pub from_120 : List Assign
from_120 =
    assign 120 0x0 0 0 0 0 0 0 0 0 0 0 0 0 0 0 0 0
    ∷ assign 121 0x0 0 0 0 0 0 0 0 0 0 0 0 0 0 0 0 0
    ∷ assign 122 0x0 0 0 0 0 0 0 0 0 0 0 0 0 0 0 0 0
    ∷ assign 123 0x0 0 0 0 0 0 0 0 0 0 0 0 0 0 0 0 0
    ∷ assign 124 0x0 0 0 0 0 0 0 0 0 0 0 0 0 0 0 0 0
    ∷ assign 125 0x0 0 0 0 0 0 0 0 0 0 0 0 0 0 0 0 0
    ∷ assign 126 0x0 1 0 0 0 1 0 0 1 1 0 0 1 0 0 0 0
    ∷ assign 127 0x0 1 0 0 0 1 0 0 1 1 0 0 1 0 0 0 0
    ∷ []
