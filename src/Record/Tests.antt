-- ===== src/Record/Tests.antt =====
-- A record of the window provider and one of the browser provider, and what they hash.
use nikki.Prelude.{◌≡◌, ◌↔◌, arith, Text, codes, pos}
use nikki.Record.{tick, visit, windows_key, browser_visit}
use nikki.Record.Dedup.{join, key_fields}
use nikki.Record.Keys.{identity, key_input_iff}

abbrev device : Text
device = codes "mbp-21"

key_input_iff_example :
    (join (key_fields windows_key device tick (pos 1787666152481) 41207)
      ≡ join (key_fields (browser_visit (codes "MBP_21") 1 (pos 929269)) device visit (pos 5) 7))
    ↔ (identity windows_key device tick (pos 1787666152481) 41207
        ≡ identity (browser_visit (codes "MBP_21") 1 (pos 929269)) device visit (pos 5) 7)
key_input_iff_example =
    key_input_iff windows_key (browser_visit (codes "MBP_21") 1 (pos 929269)) device device tick
      visit (pos 1787666152481) (pos 5) 41207 7 tt (omega arith) (omega arith) (omega arith)
      (omega arith) (omega arith) (omega arith) (omega arith)
