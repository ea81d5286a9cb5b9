-- ===== src/Tool/Table.antt =====
-- The options of util/bdtun.c by their names: the table that argp is given, and the labels of
-- parse_opt's switch.
use Prim.Native.String.{String}
use text.Mathlib.Text
use bdtun.Base.{ℕ, Bool, true, false, List, [], ◌∷◌, Option, none, some, ◌==◌, if◌then◌else◌}
use bdtun.Base.Int.{ℤ, pos, negsuc}
use bdtun.Tool.Options.{
  Opt, key_create, key_remove, key_resize, key_list, key_info, key_name, key_size, key_bsize,
  key_flush, key_fua, key_discard, key_secure,
}

-- `struct argp_option`.
pub record ArgpOption : Type 0 where
  pub name : Option String
  pub key : ℕ
  pub arg : Option String
  pub flags : ℕ
  pub doc : Option String
  pub group : ℤ

-- Rows of the table: a heading, an option without an argument, and one with an argument.
abbrev pub heading_row : String → ℤ → ArgpOption
heading_row doc group = record {
  name = none;
  key = 0;
  arg = none;
  flags = 0;
  doc = some doc;
  group = group;
}

abbrev pub flag_row : String → ℕ → String → ℤ → ArgpOption
flag_row name key doc group = record {
  name = some name;
  key = key;
  arg = none;
  flags = 0;
  doc = some doc;
  group = group;
}

abbrev pub setting_row : String → ℕ → String → String → ℤ → ArgpOption
setting_row name key arg doc group = record {
  name = some name;
  key = key;
  arg = some arg;
  flags = 0;
  doc = some doc;
  group = group;
}

-- The table, without the row of zeros that ends it.
abbrev pub options : List ArgpOption
options =
    heading_row "Informational options" (negsuc 0)
    ∷ heading_row "Commands" (pos 0)
    ∷ flag_row "create" 99 "create a tunnel (with -bns)" (pos 0)
    ∷ flag_row "remove" 114 "remove a tunnel (with -n)" (pos 0)
    ∷ flag_row "resize" 122 "resize the block device (with -ns)" (pos 0)
    ∷ flag_row "list" 108 "list existing tunnels" (pos 0)
    ∷ flag_row "info" 105 "get info on a tunnel (with -n)" (pos 0)
    ∷ heading_row "Options" (pos 1)
    ∷ setting_row "name" 110 "NAME" "name of tunnel" (pos 1)
    ∷ setting_row "size" 115 "SIZE" "block device size in bytes" (pos 1)
    ∷ setting_row "block-size" 98 "BLOCKSIZE" "device block size in bytes" (pos 1)
    ∷ flag_row "req-flush" 1000 "support REQ_FLUSH" (pos 1)
    ∷ flag_row "req-fua" 1001 "support REQ_FUA" (pos 1)
    ∷ flag_row "req-discard" 1002 "support REQ_DISCARD " (pos 1)
    ∷ flag_row "req-secure" 1003 "support secure discard (REQ_SAFE)" (pos 1)
    ∷ []

-- Which case of parse_opt's switch a key with its argument takes, where it is an option's.
unfoldable pub opt_for : ℕ → Option (List ℕ) → Option Opt
opt_for key none =
    if key == 99
    then some key_create
    else (if key == 114
        then some key_remove
        else (if key == 122
            then some key_resize
            else (if key == 108
                then some key_list
                else (if key == 105
                    then some key_info
                    else (if key == 1000
                        then some key_flush
                        else (if key == 1001
                            then some key_fua
                            else (if key == 1002
                                then some key_discard
                                else (if key == 1003 then some key_secure else none))))))))
opt_for key (some arg) =
    if key == 110
    then some (key_name arg)
    else (if key == 115
        then some (key_size arg)
        else (if key == 98 then some (key_bsize arg) else none))

-- The row of a long name.
unfoldable pub find_option : String → List ArgpOption → Option ArgpOption
find_option s [] = none
find_option s (o ∷ os) =
    let rest = find_option s os in
    elim o.name [ none ↦ rest | some name ↦ if Text.◌==◌ s name then some o else rest ]

abbrev pub same_shape : {A B : Type 0} → Option A → Option B → Bool
same_shape none none = true
same_shape (some a) (some b) = true
same_shape none (some b) = false
same_shape (some a) none = false

-- What argp calls parse_opt with for the option of a whole long name, alone or with an argument:
-- none, which ends the program, if the table has no such option, or has it without an argument and
-- one is given, or the other way round. Short options, and names cut short, are left out.
unfoldable pub named_option : String → Option (List ℕ) → Option Opt
unfolding find_option opt_for
named_option s given = elim (find_option s options) [
  | none ↦ none
  | some o ↦ if same_shape o.arg given then opt_for o.key given else none
]
