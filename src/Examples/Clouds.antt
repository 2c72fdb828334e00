-- ===== src/Examples/Clouds.antt =====
-- Cloud credentials on concrete inputs.
use tensor.Prelude.{◌≡◌, refl, Bool, true, false, Option, none, some, [], ◌∷◌, ◌++◌}
use tensor.Prelude.Text.{Text, codes}
use tensor.Cloud.{
  CloudCredential, Files, Call, aws, rax, gce, returned, panicked, aws_credential, rax_variables,
  rax_credential, rax_content, make_executable, fill, fill_rax, rax_cred_file, nothing_given,
  get_cloud_credential,
}
use tensor.Cloud.Laws.{get_cloud_credential-panicked_iff}

-- A file system with the given name for a new file, on which writing succeeds or not.
abbrev files : Option Text → Bool → Files
files name works = record {
  temp_file = λ prefix. name;
  write = λ name content. works;
  close = λ name. true;
  chmod = λ name. true;
}

abbrev pub credential_of : Text → CloudCredential
credential_of kind = record {
  kind = kind;
  username = codes "u";
  password = codes "p";
  email = codes "e";
  project = codes "q";
  client = codes "c";
  secret = codes "s";
  subscription = codes "i";
  tenant = codes "t";
  ssh_key_data = codes "k";
}

-- A decryption for the tests.
abbrev pub opened : Text → Text
opened s = codes "open-" ++ s

abbrev pub all_files : Files
all_files = files (some (codes "/tmp/f")) true

aws_given :
    get_cloud_credential all_files opened (codes "A=1" ∷ []) (credential_of aws)
    ≡ returned record {
      env =
          some
            (codes "A=1" ∷ codes "AWS_SECRET_ACCESS_KEY=open-s" ∷ codes "AWS_ACCESS_KEY_ID=c" ∷ []);
      file = none;
      error = none;
      calls = [];
    }
unfolding get_cloud_credential aws_credential
aws_given = refl

-- The key stands in the file as it is stored.
rax_given :
    get_cloud_credential all_files opened [] (credential_of rax)
    ≡ returned record {
      env = some (codes "RAX_CREDS_FILE=/tmp/f" ∷ []);
      file = some (codes "/tmp/f");
      error = none;
      calls =
          Call.temp_file (codes "tensor_credential_rackspace")
          ∷ Call.write
              (codes "/tmp/f")
              (codes "#!/usr/bin/python\n[rackspace_cloud]\nusername=u\napi_key=s")
          ∷ Call.close (codes "/tmp/f")
          ∷ Call.chmod (codes "/tmp/f")
          ∷ [];
    }
unfolding get_cloud_credential rax_credential rax_variables rax_cred_file fill_rax fill rax_content
    make_executable
rax_given = refl

-- A write that fails leaves the file, which the caller then does not learn of.
rax_left :
    get_cloud_credential (files (some (codes "/tmp/f")) false) opened [] (credential_of rax)
    ≡ returned record {
      env = none;
      file = some (codes "/tmp/f");
      error = some (codes "Rackspace credential file creation failed");
      calls =
          Call.temp_file (codes "tensor_credential_rackspace")
          ∷ Call.write
              (codes "/tmp/f")
              (codes "#!/usr/bin/python\n[rackspace_cloud]\nusername=u\napi_key=s")
          ∷ [];
    }
unfolding get_cloud_credential rax_credential rax_variables rax_cred_file fill_rax fill rax_content
    make_executable
rax_left = refl

unknown_given :
    get_cloud_credential all_files opened (codes "A=1" ∷ []) (credential_of (codes "vmware"))
    ≡ nothing_given
unfolding get_cloud_credential
unknown_given = refl

panicked_without_file :
    get_cloud_credential (files none true) opened [] (credential_of gce) ≡ panicked
panicked_without_file =
    (get_cloud_credential-panicked_iff (files none true) opened [] (credential_of gce)).1
      (refl, refl)
