-- ===== src/Fpioa/Config/High.antt =====
-- Entries 128 to 255 of `function_config` of src/drivers/fpioa.c, in their order and in that of their
-- fields.
use k210_guard_bootloader.Prelude.{List, [], ◌∷◌}
use k210_guard_bootloader.Fpioa.Entry.{Assign, assign}

abbrev pub from_128 : List Assign
from_128 =
    assign 128 0x0 1 0 0 0 1 0 0 1 1 0 0 1 0 0 0 0
    ∷ assign 129 0x0 1 0 0 0 1 0 0 1 1 0 0 1 0 0 0 0
    ∷ assign 130 0x0 1 0 0 0 1 0 0 1 1 0 0 1 0 0 0 0
    ∷ assign 131 0x0 1 0 0 0 1 0 0 1 1 0 0 1 0 0 0 0
    ∷ assign 132 0xf 1 0 0 0 0 0 0 0 0 0 0 0 0 0 0 0
    ∷ assign 133 0xf 1 0 0 0 0 0 0 0 0 0 0 0 0 0 0 0
    ∷ assign 134 0xf 1 0 0 0 0 0 0 0 0 0 0 0 0 0 0 0
    ∷ assign 135 0x0 0 0 0 0 0 0 0 0 1 0 0 1 0 0 0 0
    ∷ []

abbrev pub from_136 : List Assign
from_136 =
    assign 136 0x0 0 0 0 0 0 0 0 0 1 0 0 1 0 0 0 0
    ∷ assign 137 0x0 0 0 0 0 0 0 0 0 1 0 0 1 0 0 0 0
    ∷ assign 138 0x0 0 0 0 0 0 0 0 0 1 0 0 1 0 0 0 0
    ∷ assign 139 0x0 0 0 0 0 0 0 0 0 1 0 0 1 0 0 0 0
    ∷ assign 140 0x0 0 0 0 0 0 0 0 0 1 0 0 1 0 0 0 0
    ∷ assign 141 0x0 0 0 0 0 0 0 0 0 1 0 0 1 0 0 0 0
    ∷ assign 142 0x0 0 0 0 0 0 0 0 0 1 0 0 1 0 0 0 0
    ∷ assign 143 0x0 0 0 0 0 0 0 0 0 1 0 0 1 0 0 0 0
    ∷ []

abbrev pub from_144 : List Assign
from_144 =
    assign 144 0x0 0 0 0 0 0 0 0 0 1 0 0 1 0 0 0 0
    ∷ assign 145 0x0 0 0 0 0 0 0 0 0 1 0 0 1 0 0 0 0
    ∷ assign 146 0x0 1 1 0 0 1 0 0 1 1 0 0 1 0 0 0 0
    ∷ assign 147 0x0 1 1 0 0 1 0 0 1 1 0 0 1 0 0 0 0
    ∷ assign 148 0x0 0 0 0 0 0 0 0 0 1 0 0 1 0 0 0 0
    ∷ assign 149 0x0 0 0 0 0 0 0 0 0 1 0 0 1 0 0 0 0
    ∷ assign 150 0x0 0 0 0 0 0 0 0 0 1 0 0 1 0 0 0 0
    ∷ assign 151 0x0 0 0 0 0 0 0 0 0 1 0 0 1 0 0 0 0
    ∷ []

abbrev pub from_152 : List Assign
from_152 =
    assign 152 0x0 0 0 0 0 0 0 0 0 1 0 0 1 0 0 0 0
    ∷ assign 153 0xf 1 0 0 0 0 0 0 0 0 0 0 0 0 0 0 0
    ∷ assign 154 0xf 1 0 0 0 0 0 0 0 0 0 0 0 0 0 0 0
    ∷ assign 155 0xf 1 0 0 0 0 0 0 0 0 0 0 0 0 0 0 0
    ∷ assign 156 0xf 1 0 0 0 0 0 0 0 0 0 0 0 0 0 0 0
    ∷ assign 157 0xf 1 0 0 0 0 0 0 0 0 0 0 0 0 0 0 0
    ∷ assign 158 0xf 1 0 0 0 0 0 0 0 0 0 0 0 0 0 0 0
    ∷ assign 159 0xf 1 0 0 0 0 0 0 0 0 0 0 0 0 0 0 0
    ∷ []

abbrev pub from_160 : List Assign
from_160 =
    assign 160 0xf 1 0 0 0 0 0 0 0 0 0 0 0 0 0 0 0
    ∷ assign 161 0xf 1 0 0 0 0 0 0 0 0 0 0 0 0 0 0 0
    ∷ assign 162 0x0 0 0 0 0 0 0 0 0 1 0 0 1 0 0 0 0
    ∷ assign 163 0x0 0 0 0 0 0 0 0 0 1 0 0 1 0 0 0 0
    ∷ assign 164 0x0 0 0 0 0 0 0 0 0 1 0 0 1 0 0 0 0
    ∷ assign 165 0x0 0 0 0 0 0 0 0 0 1 0 0 1 0 0 0 0
    ∷ assign 166 0x0 0 0 0 0 0 0 0 0 1 0 0 1 0 0 0 0
    ∷ assign 167 0xf 1 0 0 0 0 0 0 0 0 0 0 0 0 0 0 0
    ∷ []

abbrev pub from_168 : List Assign
from_168 =
    assign 168 0xf 1 0 0 0 0 0 0 0 0 0 0 0 0 0 0 0
    ∷ assign 169 0xf 1 0 0 0 0 0 0 0 0 0 0 0 0 0 0 0
    ∷ assign 170 0xf 1 0 0 0 0 0 0 0 0 0 0 0 0 0 0 0
    ∷ assign 171 0xf 1 0 0 0 0 0 0 0 0 0 0 0 0 0 0 0
    ∷ assign 172 0xf 1 0 0 0 0 0 0 0 0 0 0 0 0 0 0 0
    ∷ assign 173 0xf 1 0 0 0 0 0 0 0 0 0 0 0 0 0 0 0
    ∷ assign 174 0xf 1 0 0 0 0 0 0 0 0 0 0 0 0 0 0 0
    ∷ assign 175 0xf 1 0 0 0 0 0 0 0 0 0 0 0 0 0 0 0
    ∷ []

abbrev pub from_176 : List Assign
from_176 =
    assign 176 0x0 0 0 0 0 0 0 0 0 1 0 0 1 0 0 0 0
    ∷ assign 177 0x0 0 0 0 0 0 0 0 0 1 0 0 1 0 0 0 0
    ∷ assign 178 0x0 0 0 0 0 0 0 0 0 1 0 0 1 0 0 0 0
    ∷ assign 179 0x0 0 0 0 0 0 0 0 0 1 0 0 1 0 0 0 0
    ∷ assign 180 0x0 0 0 0 0 0 0 0 0 1 0 0 1 0 0 0 0
    ∷ assign 181 0xf 1 0 0 0 0 0 0 0 0 0 0 0 0 0 0 0
    ∷ assign 182 0xf 1 0 0 0 0 0 0 0 0 0 0 0 0 0 0 0
    ∷ assign 183 0xf 1 0 0 0 0 0 0 0 0 0 0 0 0 0 0 0
    ∷ []

abbrev pub from_184 : List Assign
from_184 =
    assign 184 0xf 1 0 0 0 0 0 0 0 0 0 0 0 0 0 0 0
    ∷ assign 185 0xf 1 0 0 0 0 0 0 0 0 0 0 0 0 0 0 0
    ∷ assign 186 0xf 1 0 0 0 0 0 0 0 0 0 0 0 0 0 0 0
    ∷ assign 187 0xf 1 0 0 0 0 0 0 0 0 0 0 0 0 0 0 0
    ∷ assign 188 0xf 1 0 0 0 0 0 0 0 0 0 0 0 0 0 0 0
    ∷ assign 189 0xf 1 0 0 0 0 0 0 0 0 0 0 0 0 0 0 0
    ∷ assign 190 0xf 1 0 0 0 0 0 0 0 0 0 0 0 0 0 0 0
    ∷ assign 191 0xf 1 0 0 0 0 0 0 0 0 0 0 0 0 0 0 0
    ∷ []

abbrev pub from_192 : List Assign
from_192 =
    assign 192 0xf 1 0 0 0 0 0 0 0 0 0 0 0 0 0 0 0
    ∷ assign 193 0xf 1 0 0 0 0 0 0 0 0 0 0 0 0 0 0 0
    ∷ assign 194 0xf 1 0 0 0 0 0 0 0 0 0 0 0 0 0 0 0
    ∷ assign 195 0xf 1 0 0 0 0 0 0 0 0 0 0 0 0 0 0 0
    ∷ assign 196 0xf 1 0 0 0 0 0 0 0 0 0 0 0 0 0 0 0
    ∷ assign 197 0xf 1 0 0 0 0 0 0 0 0 0 0 0 0 0 0 0
    ∷ assign 198 0xf 1 0 0 0 0 0 0 0 0 0 0 0 0 0 0 0
    ∷ assign 199 0xf 1 0 0 0 0 0 0 0 0 0 0 0 0 0 0 0
    ∷ []

abbrev pub from_200 : List Assign
from_200 =
    assign 200 0xf 1 0 0 0 0 0 0 0 0 0 0 0 0 0 0 0
    ∷ assign 201 0xf 1 0 0 0 0 0 0 0 0 0 0 0 0 0 0 0
    ∷ assign 202 0xf 1 0 0 0 0 0 0 0 0 0 0 0 0 0 0 0
    ∷ assign 203 0xf 1 0 0 0 0 0 0 0 0 0 0 0 0 0 0 0
    ∷ assign 204 0xf 1 0 0 0 0 0 0 0 0 0 0 0 0 0 0 0
    ∷ assign 205 0xf 1 0 0 0 0 0 0 0 0 0 0 0 0 0 0 0
    ∷ assign 206 0xf 1 0 0 0 0 0 0 0 0 0 0 0 0 0 0 0
    ∷ assign 207 0xf 1 0 0 0 0 0 0 0 0 0 0 0 0 0 0 0
    ∷ []

abbrev pub from_208 : List Assign
from_208 =
    assign 208 0xf 1 0 0 0 0 0 0 0 0 0 0 0 0 0 0 0
    ∷ assign 209 0xf 1 0 0 0 0 0 0 0 0 0 0 0 0 0 0 0
    ∷ assign 210 0xf 1 0 0 0 0 0 0 0 0 0 0 0 0 0 0 0
    ∷ assign 211 0xf 1 0 0 0 0 0 0 0 0 0 0 0 0 0 0 0
    ∷ assign 212 0xf 1 0 0 0 0 0 0 0 0 0 0 0 0 0 0 0
    ∷ assign 213 0x0 0 0 0 0 0 0 0 0 1 0 0 1 0 0 0 0
    ∷ assign 214 0x0 0 0 0 0 0 0 0 0 1 0 0 1 0 0 0 0
    ∷ assign 215 0x0 0 0 0 0 0 0 0 0 1 0 0 1 0 0 0 0
    ∷ []

abbrev pub from_216 : List Assign
from_216 =
    assign 216 0x0 0 0 0 0 0 0 0 0 1 0 0 1 0 0 0 0
    ∷ assign 217 0x0 0 0 0 0 1 0 0 0 1 0 0 1 0 0 0 0
    ∷ assign 218 0xf 1 0 0 0 1 0 0 1 1 0 0 1 0 0 0 0
    ∷ assign 219 0x0 0 0 0 0 0 0 0 0 1 0 0 1 0 0 0 0
    ∷ assign 220 0x0 0 0 0 0 0 0 0 0 1 0 0 1 0 0 0 0
    ∷ assign 221 0x0 0 0 0 0 0 0 0 0 1 0 0 1 0 0 0 0
    ∷ assign 222 0x0 0 0 0 0 0 0 0 0 0 0 0 0 0 0 0 0
    ∷ assign 223 0x0 0 0 0 0 0 0 0 0 1 0 0 1 0 0 0 0
    ∷ []

abbrev pub from_224 : List Assign
from_224 =
    assign 224 0xf 1 0 0 0 0 0 0 0 0 0 0 0 0 0 0 0
    ∷ assign 225 0xf 1 0 0 0 0 0 0 0 0 0 0 0 0 0 0 0
    ∷ assign 226 0xf 1 0 0 0 0 0 0 0 0 0 0 0 0 0 0 0
    ∷ assign 227 0xf 1 0 0 0 0 0 0 0 0 0 0 0 0 0 0 0
    ∷ assign 228 0xf 1 0 0 0 0 0 0 0 0 0 0 0 0 0 0 0
    ∷ assign 229 0xf 1 0 0 0 0 0 0 0 0 0 0 0 0 0 0 0
    ∷ assign 230 0xf 1 0 0 0 0 0 0 0 0 0 0 0 0 0 0 0
    ∷ assign 231 0xf 1 0 0 0 0 0 0 0 0 0 0 0 0 0 0 0
    ∷ []

abbrev pub from_232 : List Assign
from_232 =
    assign 232 0xf 1 0 0 0 0 0 0 0 0 0 0 0 0 0 0 0
    ∷ assign 233 0xf 1 0 0 0 0 0 0 0 0 0 0 0 0 0 0 0
    ∷ assign 234 0xf 1 0 0 0 0 0 0 0 0 0 0 0 0 0 0 0
    ∷ assign 235 0xf 1 0 0 0 0 0 0 0 0 0 0 0 0 0 0 0
    ∷ assign 236 0xf 1 0 0 0 0 0 0 0 0 0 0 0 0 0 0 0
    ∷ assign 237 0xf 1 0 0 0 0 0 0 0 0 0 0 0 0 0 0 0
    ∷ assign 238 0xf 1 0 0 0 0 0 0 0 0 0 0 0 0 0 0 0
    ∷ assign 239 0xf 1 0 0 0 0 0 0 0 0 0 0 0 0 0 0 0
    ∷ []

abbrev pub from_240 : List Assign
from_240 =
    assign 240 0xf 1 0 0 0 0 0 0 0 0 0 0 0 0 0 0 0
    ∷ assign 241 0xf 1 0 0 0 0 0 0 0 0 0 0 0 0 0 0 0
    ∷ assign 242 0xf 1 0 0 0 0 0 0 0 0 0 0 0 0 0 0 0
    ∷ assign 243 0xf 1 0 0 0 0 0 0 0 0 0 0 0 0 0 0 0
    ∷ assign 244 0xf 1 0 0 0 0 0 0 0 0 0 0 0 0 0 0 0
    ∷ assign 245 0xf 1 0 0 0 0 0 0 0 0 0 0 0 0 0 0 0
    ∷ assign 246 0xf 1 0 0 0 0 0 0 0 0 0 0 0 0 0 0 0
    ∷ assign 247 0xf 1 0 0 0 0 0 0 0 0 0 0 0 0 0 0 0
    ∷ []

abbrev pub from_248 : List Assign
from_248 =
    assign 248 0xf 1 0 0 0 0 0 0 0 0 0 0 0 0 0 0 0
    ∷ assign 249 0xf 1 0 0 0 0 0 0 0 0 0 0 0 0 0 0 0
    ∷ assign 250 0xf 1 0 0 0 0 0 0 0 0 0 0 0 0 0 0 0
    ∷ assign 251 0xf 1 0 0 0 0 0 0 0 0 0 0 0 0 0 0 0
    ∷ assign 252 0xf 1 0 0 0 0 0 0 0 0 0 0 0 0 0 0 0
    ∷ assign 253 0xf 1 0 0 0 0 0 0 0 0 0 0 0 0 0 0 0
    ∷ assign 254 0xf 1 0 0 0 0 0 0 0 0 0 0 0 0 0 0 0
    ∷ assign 255 0xf 1 0 0 0 0 0 0 0 0 0 0 0 0 0 0 0
    ∷ []
