-- ===== src/Cloud.antt =====
-- exec/misc/cloud.go: the variables and files that hand a cloud credential to a job.
-- What the file system answers is an argument, and so is the decryption of a stored secret, for secrets
-- that `Decipher` (util/cipher.go) opens without a panic. A nil slice is `none`: a command whose
-- environment is nil inherits the one of the server. Logging is left out.
pub mod Laws
use tensor.Prelude.{
  Bool, true, false, Option, none, some, List, [], ◌∷◌, ◌++◌, if◌then◌else◌, ltb, length, ◌==◌,
}
use tensor.Prelude.Text.{Text, text_eq, codes}

-- The fields of a credential that are read here.
pub record CloudCredential : Type 0 where
  pub kind : Text
  pub username : Text
  pub password : Text
  pub email : Text
  pub project : Text
  pub client : Text
  pub secret : Text
  pub subscription : Text
  pub tenant : Text
  pub ssh_key_data : Text

abbrev pub aws : Text
aws = codes "aws"

abbrev pub rax : Text
rax = codes "rax"

abbrev pub gce : Text
gce = codes "gce"

abbrev pub azure : Text
azure = codes "azure"

-- The answers of the file system: the name of the new file, if it can be made, and whether the
-- other calls succeed.
pub record Files : Type 0 where
  pub temp_file : Text → Option Text
  pub write : Text → Text → Bool
  pub close : Text → Bool
  pub chmod : Text → Bool

-- A call of the file system. The mode of `chmod` is 0700.
pub data Call : Type 0 where
  temp_file close chmod : Text → Call
  write : Text → Text → Call

-- The file, if one was made, whether there is an error, and the calls in their order.
pub record Made : Type 0 where
  pub file : Option Text
  pub failed : Bool
  pub calls : List Call

unfoldable pub make_executable : Files → Text → List Call → Made
make_executable fs name calls =
    if fs.chmod name
    then record { file = some name; failed = false; calls = calls ++ chmod name ∷ [] }
    else record { file = some name; failed = true; calls = calls ++ chmod name ∷ [] }

unfoldable pub rax_content : CloudCredential → Text
rax_content c =
    codes "#!/usr/bin/python\n[rackspace_cloud]"
    ++ codes "\nusername="
    ++ c.username
    ++ codes "\napi_key="
    ++ c.secret

-- From the first write on, which the two functions for files share; `then_` is what follows the
-- closing of the file.
unfoldable pub fill : Files → Text → Text → List Call → (List Call → Made) → Made
fill fs name content calls then_ =
    let written = calls ++ write name content ∷ [] in
    let closed = written ++ close name ∷ [] in
    let made = then_ closed in
    if fs.write name content
    then if fs.close name then made else record { file = some name; failed = true; calls = closed }
    else record { file = some name; failed = true; calls = written }

unfoldable pub fill_rax : Files → CloudCredential → List Call → Option Text → Made
unfolding make_executable rax_content fill
fill_rax fs c calls none = record { file = none; failed = true; calls = calls }
fill_rax fs c calls (some name) = fill fs name (rax_content c) calls (make_executable fs name)

unfoldable pub rax_cred_file : Files → CloudCredential → Made
unfolding fill_rax
rax_cred_file fs c =
    let prefix = codes "tensor_credential_rackspace" in
    fill_rax fs c (Call.temp_file prefix ∷ []) (fs.temp_file prefix)

unfoldable pub fill_gce : Files → (Text → Text) → CloudCredential → List Call → Option Text → Made
unfolding fill
fill_gce fs decipher c calls none = record { file = none; failed = true; calls = calls }
fill_gce fs decipher c calls (some name) =
    fill fs name (decipher c.ssh_key_data) calls
      (λ done. record { file = some name; failed = false; calls = done })

unfoldable pub gce_cred_file : Files → (Text → Text) → CloudCredential → Made
unfolding fill_gce
gce_cred_file fs decipher c =
    let prefix = codes "tensor_credential_gce" in
    fill_gce fs decipher c (Call.temp_file prefix ∷ []) (fs.temp_file prefix)

-- What the call returns.
pub record Given : Type 0 where
  pub env : Option (List Text)
  pub file : Option Text
  pub error : Option Text
  pub calls : List Call

-- `panicked` is the dereference of a nil file in `f.Name()`.
pub data Outcome : Type 0 where
  returned : Given → Outcome
  panicked : Outcome

unfoldable pub aws_credential : (Text → Text) → List Text → CloudCredential → Outcome
aws_credential decipher env c = returned record {
  env = some (
      env
      ++ (codes "AWS_SECRET_ACCESS_KEY=" ++ decipher c.secret)
        ∷ (codes "AWS_ACCESS_KEY_ID=" ++ c.client)
        ∷ []);
  file = none;
  error = none;
  calls = [];
}

unfoldable pub rax_variables : List Text → Bool → List Call → Option Text → Outcome
rax_variables env true calls found = returned record {
  env = none;
  file = found;
  error = some (codes "Rackspace credential file creation failed");
  calls = calls;
}
rax_variables env false calls none = panicked
rax_variables env false calls (some name) = returned record {
  env = some (env ++ (codes "RAX_CREDS_FILE=" ++ name) ∷ []);
  file = some name;
  error = none;
  calls = calls;
}

unfoldable pub rax_credential : List Text → Made → Outcome
unfolding rax_variables
rax_credential env made = rax_variables env made.failed made.calls made.file

-- The error is set, but the function goes on.
unfoldable pub gce_variables :
    List Text → CloudCredential → Bool → List Call → Option Text → Outcome
gce_variables env c failed calls none = panicked
gce_variables env c failed calls (some name) = returned record {
  env = some (
      env
      ++ (codes "GCE_EMAIL=" ++ c.email)
        ∷ (codes "GCE_PROJECT=" ++ c.project)
        ∷ (codes "GCE_CREDENTIALS_FILE_PATH=" ++ name)
        ∷ []);
  file = some name;
  error = if failed then some (codes "GCE credential file creation failed") else none;
  calls = calls;
}

unfoldable pub gce_credential : List Text → CloudCredential → Made → Outcome
unfolding gce_variables
gce_credential env c made = gce_variables env c made.failed made.calls made.file

unfoldable pub azure_variables : (Text → Text) → CloudCredential → List Text
azure_variables decipher c =
    if ltb 0 (length c.username)
    then (codes "AZURE_AD_USER=" ++ c.username)
      ∷ (codes "AZURE_PASSWORD=" ++ decipher c.password)
      ∷ (codes "AZURE_SUBSCRIPTION_ID=" ++ c.subscription)
      ∷ []
    else (codes "AZURE_CLIENT_ID=" ++ c.client)
      ∷ (codes "AZURE_SECRET=" ++ decipher c.secret)
      ∷ (codes "AZURE_SUBSCRIPTION_ID=" ++ c.subscription)
      ∷ (codes "AZURE_TENANT=" ++ c.tenant)
      ∷ []

unfoldable pub azure_credential : (Text → Text) → List Text → CloudCredential → Outcome
unfolding azure_variables
azure_credential decipher env c =
    returned record {
      env = some (env ++ azure_variables decipher c);
      file = none;
      error = none;
      calls = [];
    }

-- The named results before they are set.
unfoldable pub nothing_given : Outcome
nothing_given = returned record { env = none; file = none; error = none; calls = [] }

unfoldable pub get_cloud_credential : Files → (Text → Text) → List Text → CloudCredential → Outcome
unfolding aws_credential rax_variables rax_credential gce_credential azure_credential rax_cred_file
    gce_cred_file nothing_given
get_cloud_credential fs decipher env c =
    if c.kind == aws
    then aws_credential decipher env c
    else if c.kind == rax
    then rax_credential env (rax_cred_file fs c)
    else if c.kind == gce
    then gce_credential env c (gce_cred_file fs decipher c)
    else if c.kind == azure
    then azure_credential decipher env c
    else nothing_given
