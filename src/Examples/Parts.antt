-- ===== src/Examples/Parts.antt =====
-- The parts below Server, and the parser of the header "If", on concrete inputs.
use webdav_serverless.Base.{
  true, false, some, [], ◌∷◌, ◌≡◌, ◌≢◌, refl, Bytes, codes, bytes_eq, bytes_dec, arith,
}
use webdav_serverless.Errors.{ok}
use webdav_serverless.Path.{root, slash, clean, slash_clean, IsClean}
use webdav_serverless.Path.Clean.{slash_clean_lem}
use webdav_serverless.IfHeader.{IfList, accept, out_of_fuel, parse_if_header}
use webdav_serverless.IfHeader.Total.{parse_if_header-ne-out_of_fuel}
use webdav_serverless.IfHeader.Shape.{IsWellFormedHeader, parse_if_header-IsWellFormedHeader}
use webdav_serverless.IfHeader.Print.{print_no_tag, print_tagged}
use webdav_serverless.IfHeader.Print.Headers.{
  parse_if_header-print_no_tag, parse_if_header-print_tagged,
}
use webdav_serverless.Awsfs.Dynamo.{Tables, put_entry, apply_all, apply_write, all_hold, holds}
use webdav_serverless.Awsfs.Dynamo.Memory.{memory, memory-IsLawful}
use webdav_serverless.Awsfs.Metadata.{get_reference, delete_entries, root_reference}
use webdav_serverless.Awsfs.Metadata.Versions.{here, followed_by, transacted, delete_entries-fresh}
use webdav_serverless.Examples.{id1, path_a, directory, tables1, ref1}

slash_clean_example :
    (slash_clean (codes "a/../b//c") ≡ clean (slash ∷ codes "a/../b//c"))
    × IsClean (slash_clean (codes "a/../b//c"))
    × (slash_clean (slash_clean (codes "a/../b//c")) ≡ slash_clean (codes "a/../b//c"))
slash_clean_example = slash_clean_lem (codes "a/../b//c")

path_a-ne-root : path_a ≢ root
path_a-ne-root e = cc

abbrev text : Bytes
text = codes "(<t1> [e1]) (Not <t2>)"

total_example : parse_if_header text ≢ out_of_fuel
total_example = parse_if_header-ne-out_of_fuel text

abbrev one_list : IfList
one_list = record {
  resource_tag = [];
  conditions =
      record { is_not = false; token = codes "t1"; etag = [] }
      ∷ record { is_not = true; token = []; etag = codes "e" }
      ∷ [];
}

one_list-parsed : parse_if_header (codes "(<t1> Not [e])") ≡ accept (one_list ∷ [])
unfolding parse_if_header
one_list-parsed = refl

shape_example : IsWellFormedHeader (one_list ∷ [])
shape_example = parse_if_header-IsWellFormedHeader (codes "(<t1> Not [e])") one_list-parsed

print_no_tag_example : parse_if_header (print_no_tag (one_list ∷ [])) ≡ accept (one_list ∷ [])
print_no_tag_example =
    parse_if_header-print_no_tag one_list [] (((λ e. cc), (ground arith), tt), tt) (refl, tt)

print_tagged_example :
    parse_if_header (print_tagged (record one_list { resource_tag = codes "/x" } ∷ []))
    ≡ accept (record one_list { resource_tag = codes "/x" } ∷ [])
print_tagged_example =
    parse_if_header-print_tagged (record one_list { resource_tag = codes "/x" }) []
      (((λ e. cc), (ground arith), (ground arith)), tt)

-- Another request comes between the read of the reference and the deletion.
abbrev between : Tables
between = (memory.transact (put_entry directory ∷ []) tables1).1

abbrev deleted : Tables
deleted = (delete_entries memory (id1 ∷ []) ref1 between).1

read_tables : get_reference memory ref1.id tables1 ≡ (ok ref1, tables1)
unfolding get_reference apply_all apply_write root_reference bytes_eq bytes_dec
read_tables = refl

deleted-ok : delete_entries memory (id1 ∷ []) ref1 between ≡ (ok tt, deleted)
unfolding delete_entries apply_all apply_write all_hold holds root_reference bytes_eq bytes_dec
deleted-ok = refl

fresh_example : between.references ref1.id ≡ some ref1
fresh_example =
    delete_entries-fresh memory memory-IsLawful (id1 ∷ []) ref1 tables1 tables1 between deleted
      read_tables (followed_by here (transacted (put_entry directory ∷ []) (tt, tt))) deleted-ok
