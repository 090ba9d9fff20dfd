-- ===== src/Vault/Tests.antt =====
-- Runs of agent/vault_agent.py, and its theorem at a request.
use nexvary_panel.Base.{ℕ, String, ◌≡◌, ◌==◌, refl, NoBody, true, false, none, some, List, [], ◌∷◌}
use nexvary_panel.Base.Lists.{find, select, count}
use nexvary_panel.Base.Names.{matches, starts_with_char}
use nexvary_panel.Base.Sets.{contains}
use nexvary_panel.Base.Text.{chars, suffix, any_char, all_chars}
use nexvary_panel.Vault.Store.{
  FileKind, File, SecretRow, VaultRequest, VaultAnswer, is_valid, is_secret_id, file_name, path_of,
  utf8_length, has_name, without, replace, is_allowed, vault_put, unlink, delete, insert_file,
  sort_files, secret_stem, partition, entry_of, row_of, rows_of, list_metadata, credential_path,
  handle,
}
use nexvary_panel.Vault.Refined.{rows_after, handle_refined}

unfold_all : NoBody
unfolding find select count matches starts_with_char contains chars suffix any_char all_chars
    is_valid is_secret_id file_name path_of utf8_length has_name without replace is_allowed
    vault_put unlink delete insert_file sort_files secret_stem partition entry_of row_of rows_of
    list_metadata credential_path handle rows_after
unfold_all = tt

abbrev file : String → FileKind → File
file name kind = record { name = name; kind = kind; mode = 384; bytes = 20; modified = 7 }

-- a secret, a link, a file of no secret, and a directory
abbrev files : List File
files =
    file "s3--backup--two.secret" FileKind.regular
    ∷ file "restic--repo.secret" (FileKind.link true)
    ∷ file "notes.secret" FileKind.regular
    ∷ file "fleet--node.secret" FileKind.dir
    ∷ file "cloudflare--dns.secret" FileKind.regular
    ∷ []

abbrev row : String → String → ℕ → ℕ → SecretRow
row id kind bytes time = record { id = id; kind = kind; bytes = bytes; updated_at = time }

list_test : list_metadata files ≡ row "dns" "cloudflare" 20 7 ∷ row "backup--two" "s3" 20 7 ∷ []
unfolding unfold_all
list_test = refl

replace_test :
    list_metadata (handle (VaultRequest.put_secret "backup--two" "s3" "12345678") 9 files).1
    ≡ row "dns" "cloudflare" 20 7 ∷ row "backup--two" "s3" 8 9 ∷ []
unfolding unfold_all
replace_test = refl

-- A directory is not replaced, and what is not a file is not deleted.
taken_test :
    (handle (VaultRequest.put_secret "node" "fleet" "12345678") 9 files).0 ≡ VaultAnswer.failed
unfolding unfold_all
taken_test = refl

link_test : (handle (VaultRequest.delete_secret "repo" "restic") 9 files).0 ≡ VaultAnswer.failed
unfolding unfold_all
link_test = refl

missing_test :
    (handle (VaultRequest.delete_secret "gone" "s3") 9 files).0 ≡ VaultAnswer.deleted false
unfolding unfold_all
missing_test = refl

short_test : vault_put "backup" "s3" "1234567" 9 files ≡ none
unfolding unfold_all
short_test = refl

path_test : credential_path "dns" "cloudflare" files ≡ some "cloudflare--dns.secret"
unfolding unfold_all
path_test = refl

handle_refined_example :
    count
      (λ r. r.kind == "s3")
      (list_metadata (handle (VaultRequest.put_secret "new" "s3" "12345678") 9 files).1)
    ≡ count
        (λ r. r.kind == "s3")
        (rows_after
          (VaultRequest.put_secret "new" "s3" "12345678")
          (handle (VaultRequest.put_secret "new" "s3" "12345678") 9 files).0
          (list_metadata files))
handle_refined_example =
    handle_refined (VaultRequest.put_secret "new" "s3" "12345678") 9 files (λ r. r.kind == "s3")
