-- ===== src/Examples/Transfers.antt =====
-- Transfers of files on concrete data.
use gazon.Base.{
  ◌≤◌, ◌≡◌, ◌≢◌, ◌⊎◌, refl, [], ◌∷◌, List, none, some, Text, codes, length, take, text_eq, text_Eq,
  true, false, arith,
}
use gazon.Base.Maps.{find}
use gazon.Errors.{Result, ok, throw}
use gazon.Numbers.{pos}
use gazon.FilePath.{FilePath}
use gazon.Command.{CommandArg, int_arg, path_arg}
use gazon.Filesystem.{Filesystem, TemporaryFile, commit}
use gazon.Session.Run.{Session, set_files}
use gazon.Transfer.{Peer, Disk, Job, get_int, create_upload, announce_put, put_job}
use gazon.Transfer.Get.{open_download, announce_get, get_job}
use gazon.Transfer.Receive.{joined}
use gazon.Transfer.Upload.{put_job_atomic, put_job_stores}
use gazon.Transfer.Download.{get_job_sends}
use gazon.Examples.Samples.{alice, sample_host, plain_printf}

abbrev peer : Peer
peer = record {
  setup_error = none;
  accept_error = none;
  sends = λ i n. ok n;
  port = 7000;
  is_open = true;
  chunks = codes "ab" ∷ codes "cd" ∷ codes "e" ∷ [];
}

abbrev new_file : FilePath
new_file = record { parts = codes "n" ∷ []; is_absolute = false; string = codes "n" }

abbrev put_args : List CommandArg
put_args = path_arg new_file ∷ int_arg (pos 3) ∷ []

abbrev old_disk : Disk
old_disk = (codes "/b/n", codes "old") ∷ (codes "/b/d/f", codes "data") ∷ []

abbrev failed : TemporaryFile
failed = record { temp_path = new_file; real_path = new_file }

abbrev file_of : Result TemporaryFile → TemporaryFile
file_of (ok file) = file
file_of (throw e) = failed

abbrev upload : TemporaryFile
upload = file_of (create_upload put_args alice).0

abbrev created : Session
created = (create_upload put_args alice).1

is_created : create_upload put_args alice ≡ (ok upload, created)
unfolding create_upload text_eq
is_created = refl

upload_size : get_int put_args ≡ ok (pos 3)
unfolding get_int
upload_size = refl

put_job_atomic_example :
    (job : Job) × (put_job sample_host peer put_args old_disk alice ≡ some job)
    × ((q : Text)
        → q ≢ upload.temp_path.string
        → (find q job.1 ≡ find q old_disk)
          ⊎ ((q ≡ upload.real_path.string)
              × (3 ≤ length (joined peer.chunks))
              × (find q job.1 ≡ some (take 3 (joined peer.chunks)))))
put_job_atomic_example =
    put_job_atomic sample_host peer put_args 3 old_disk alice created upload is_created upload_size
      (omega arith) (omega arith)

abbrev announced : Session
announced = (announce_put sample_host peer put_args created).1

upload_announced : announce_put sample_host peer put_args created ≡ (ok (pos 3), announced)
unfolding announce_put create_upload text_eq
upload_announced = refl

abbrev files_of : Result Filesystem → Filesystem
files_of (ok fs) = fs
files_of (throw e) = alice.world.files

abbrev after_commit : Filesystem
after_commit = files_of (commit sample_host.os announced.world.files upload)

upload_committed : commit sample_host.os announced.world.files upload ≡ ok after_commit
unfolding commit announce_put create_upload text_eq
upload_committed = refl

put_job_stores_example :
    (disk' : Disk) × (put_job sample_host peer put_args old_disk alice
      ≡ some (set_files after_commit announced, disk'))
    × (find upload.real_path.string disk' ≡ some (take 3 (joined peer.chunks)))
put_job_stores_example =
    put_job_stores sample_host peer put_args 3 old_disk alice created announced upload after_commit
      is_created upload_announced (omega arith) (omega arith) (omega arith) upload_committed

abbrev stored_file : FilePath
stored_file = record {
  parts = codes "d" ∷ codes "f" ∷ [];
  is_absolute = false;
  string = codes "d/f";
}

abbrev get_args : List CommandArg
get_args = path_arg stored_file ∷ []

abbrev path_of : Result FilePath → FilePath
path_of (ok path) = path
path_of (throw e) = stored_file

abbrev opened_path : FilePath
opened_path = path_of (open_download get_args alice).0

download_opened : open_download get_args alice ≡ (ok opened_path, alice)
unfolding open_download text_eq
download_opened = refl

download_stored : find opened_path.string old_disk ≡ some (codes "data")
unfolding open_download find text_eq
download_stored = refl

abbrev told : Session
told = (announce_get sample_host peer get_args (pos 4) alice).1

download_told : announce_get sample_host peer get_args (pos 4) alice ≡ (ok tt, told)
unfolding announce_get
download_told = refl

get_job_sends_example :
    get_job sample_host peer get_args old_disk alice ≡ some ((ok tt, told), codes "data")
get_job_sends_example =
    get_job_sends sample_host peer get_args old_disk alice alice told opened_path (codes "data")
      download_opened download_stored download_told (λ i n. refl)
