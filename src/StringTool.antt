-- ===== src/StringTool.antt =====
-- src/pinusdb/util/string_tool.cpp: the checksums, and comparison in the child modules. Bytes are numbers below 256, and
-- `crc ^ b` cut to eight bits looks up the table.
pub mod Like
mod Literal
mod Tests
use Prim.Native.Nat.{bit_xor}
use pinusdb.Prelude.{
  arith, ◌<◌, ℕ, ◌/◌, ◌%◌, ◌^◌, List, [], ◌∷◌, ◌++◌, ◌≡◌, refl, get_or, ◌+◌, leb, ◌&&◌,
  if◌then◌else◌,
}

abbrev crc64_tab : List ℕ
crc64_tab =
    0 ∷ 8851949072701294969 ∷ 17703898145402589938 ∷ 10333669153493130123 ∷ 13851072938616403599
    ∷ 13465927519055396854 ∷ 3857338458010461309 ∷ 5715195658523061508 ∷ 12333367839138578037
    ∷ 15127763206205961996 ∷ 6816212484437830791 ∷ 2612226237385041406 ∷ 7714676916020922618
    ∷ 1281407202545942915 ∷ 11430391317046123016 ∷ 16463076249205199729 ∷ 9009731685717012353
    ∷ 563108230357313272 ∷ 9851657908567506291 ∷ 17465080730062222346 ∷ 13632424968875661582
    ∷ 14404880506683019383 ∷ 5224452474770082812 ∷ 3627802401766982277 ∷ 15429353832041845236
    ∷ 12463821128841762957 ∷ 2562814405091885830 ∷ 6433535930597116543 ∷ 1592294032496338811
    ∷ 7836410910743637506 ∷ 16404387395731993993 ∷ 11056451039949864176 ∷ 18019463371434024706
    ∷ 9280105458721969787 ∷ 1126216460714626544 ∷ 8464919223366468745 ∷ 4190910634541279629
    ∷ 4679640014836523252 ∷ 14959263154764675967 ∷ 13060872525739979270 ∷ 5852729821509460343
    ∷ 3161916214005835790 ∷ 11856275032257016709 ∷ 16019730051968187132 ∷ 10448904949540165624
    ∷ 16994763621833383553 ∷ 7255604803533964554 ∷ 2191395843288271987 ∷ 9734813498046853251
    ∷ 18285020776702097914 ∷ 8262382231073956465 ∷ 608425843627928328 ∷ 5125628810183771660
    ∷ 4465764294926438261 ∷ 12867071861194233086 ∷ 14432195567501024647 ∷ 3184588064992677622
    ∷ 6262709589572306831 ∷ 15672821821487275012 ∷ 11770576130456212861 ∷ 17008134862606432377
    ∷ 10867599606483677440 ∷ 1853769023980628619 ∷ 7161174014982448114 ∷ 16103423924954344815
    ∷ 11935289383220651030 ∷ 3083341959784644509 ∷ 5769757520242456292 ∷ 2252432921429253088
    ∷ 7321251034957484697 ∷ 16929838446732937490 ∷ 10388307452745547883 ∷ 8381821269082559258
    ∷ 1047727658635319907 ∷ 9359280029673046504 ∷ 18102965619612993681 ∷ 13000435797616977301
    ∷ 14894146905688698092 ∷ 4745161141923116903 ∷ 4252033715651608094 ∷ 11705459643018920686
    ∷ 15612384854998895511 ∷ 6323832428011671580 ∷ 3250108949404244325 ∷ 7082685524280996961
    ∷ 1770671381070249240 ∷ 10951102161764411027 ∷ 17087309740654948330 ∷ 674072313427442843
    ∷ 8323419547594995170 ∷ 18224423522563763817 ∷ 9669888565606754064 ∷ 14511209607067929108
    ∷ 12950765422787986285 ∷ 4382791686576543974 ∷ 5047054248884015519 ∷ 2696289253709771373
    ∷ 6895947823530343188 ∷ 15049839570318909599 ∷ 12250835051042597350 ∷ 16524764462147912930
    ∷ 11496477575961038235 ∷ 1216851687255856656 ∷ 7654800921679748969 ∷ 10251257620367543320
    ∷ 17625884659327141217 ∷ 8931528589852876522 ∷ 84259039178430355 ∷ 5655163293556783767
    ∷ 3792978414742418414 ∷ 13532134484260726885 ∷ 13912670750543257884 ∷ 6369176129985355244
    ∷ 2502782282785952917 ∷ 12525419179144613662 ∷ 15495561035627234919 ∷ 10978437246791527267
    ∷ 16321975555527844378 ∷ 7920669638525335953 ∷ 1671873238255513832 ∷ 17531166746306175897
    ∷ 9913345878835194592 ∷ 503231997654823275 ∷ 8945175932061546514 ∷ 3707538047961257238
    ∷ 5308515798192249967 ∷ 14322348029964896228 ∷ 13554501644362141341 ∷ 10785157014839085493
    ∷ 17254666630495879372 ∷ 6925536469308201799 ∷ 1928669229005230654 ∷ 6166683919569289018
    ∷ 3408106242218915395 ∷ 11539515040484912584 ∷ 15779741191858611377 ∷ 4504865842858506176
    ∷ 4925828954283753145 ∷ 14642502069914969394 ∷ 12820884771576065099 ∷ 18355716529793696079
    ∷ 9540007361421969462 ∷ 796147016248169405 ∷ 8202193697865996996 ∷ 16763642538165118516
    ∷ 10555343349626187597 ∷ 2095455317270639814 ∷ 7479631577382337983 ∷ 2926364910754730171
    ∷ 5928137516128508354 ∷ 15937228569359352393 ∷ 12102324735718361904 ∷ 4867406749023426625
    ∷ 4131191115536978232 ∷ 13131477498808912563 ∷ 14763945261529023434 ∷ 9490322283846233806
    ∷ 17972763431062038455 ∷ 8504067431303216188 ∷ 926884511990314309 ∷ 8051711962477172407
    ∷ 1541670979892322254 ∷ 11100683476643087429 ∷ 16201132341218348348 ∷ 12647664856023343160
    ∷ 15374718365700663617 ∷ 6500217898808488650 ∷ 2372580570961558451 ∷ 14165371048561993922
    ∷ 13712881572587659707 ∷ 3541342762140498480 ∷ 5475551080882205513 ∷ 337036156713721421
    ∷ 9112211761281881908 ∷ 17374189211922025663 ∷ 10071726351451997638 ∷ 1348144626854885686
    ∷ 7524919785159454799 ∷ 16646839095189990340 ∷ 11375251796044276413 ∷ 15171913658969673657
    ∷ 12129609824107054784 ∷ 2827581646778391883 ∷ 6766067242130363442 ∷ 13374985906044110659
    ∷ 14070668113165684282 ∷ 5489218623395763633 ∷ 3960334819262667976 ∷ 8765583373153087948
    ∷ 251615998827411637 ∷ 10094108497768031038 ∷ 17783882574922426951 ∷ 5392578507419542746
    ∷ 3462768234654100899 ∷ 13791895647060686376 ∷ 14249064643987996497 ∷ 10011129131143811669
    ∷ 17309264314385947436 ∷ 9177858264896848039 ∷ 398073508124084702 ∷ 16284634862666717871
    ∷ 11179858319785628630 ∷ 1463182455377365085 ∷ 7968614284679676196 ∷ 2433703374511713312
    ∷ 6565738749404456281 ∷ 15309601843359497938 ∷ 12587227855704700843 ∷ 4025855981238586203
    ∷ 5550341738321543714 ∷ 14010231419946703273 ∷ 13309869690798280912 ∷ 17863057179705753044
    ∷ 10177610780853122221 ∷ 168518078356860710 ∷ 8687094605961012831 ∷ 11310326587113567534
    ∷ 16586241563491499095 ∷ 7585956829484836828 ∷ 1413790823389195941 ∷ 6687492953022055329
    ∷ 2744609311697881816 ∷ 12213303662187237715 ∷ 15250927976100943914 ∷ 12738352259970710488
    ∷ 14564578711588090529 ∷ 5005564565571905834 ∷ 4588929132448424019 ∷ 8142317431333358935
    ∷ 731591227688682542 ∷ 9606093343850471333 ∷ 18417404465172059868 ∷ 2012927990619293101
    ∷ 7005115709973351636 ∷ 17176652871151048543 ∷ 10702745209522052646 ∷ 15841339277050671906
    ∷ 11605722277885901403 ∷ 3343746476511027664 ∷ 6106651831093618857 ∷ 14830152191845028953
    ∷ 13193075276920315168 ∷ 4071158715666679467 ∷ 4803046671925235666 ∷ 1006463995309646550
    ∷ 8588326435575524271 ∷ 17890351864123093028 ∷ 9412308762883553629 ∷ 7415076095922514476
    ∷ 2035579357833339733 ∷ 10617031596384499934 ∷ 16829728831969243559 ∷ 12024401134718426275
    ∷ 15854695815076877786 ∷ 6012200567359213137 ∷ 3006100283679606568 ∷ []

-- One turn of the loop: `crc64_tab[(uint8_t)(crc ^ b)] ^ (crc >> 8)`.
abbrev crc64_step : ℕ → ℕ → ℕ
crc64_step crc b = bit_xor (get_or crc64_tab (bit_xor crc b % 256) 0) (crc / 256)

-- `CRC64(pData, len, offset, crc)` of the bytes from the offset on.
unfoldable pub crc64 : List ℕ → ℕ → ℕ
crc64 [] crc = crc
crc64 (b ∷ bs) crc = crc64 bs (crc64_step crc b)

-- `upper_to_lower_char`
abbrev pub to_lower : ℕ → ℕ
to_lower c = if leb 65 c && leb c 90 then c + 32 else c

-- `CRC64NoCase(pStr, len, offset, crc)` of the bytes from the offset on.
unfoldable pub crc64_no_case : List ℕ → ℕ → ℕ
crc64_no_case [] crc = crc
crc64_no_case (b ∷ bs) crc = crc64_no_case bs (crc64_step crc (to_lower b))

unfoldable pub crc64_to_crc32 : ℕ → ℕ
crc64_to_crc32 crc = crc % 2 ^ 32

unfoldable pub crc32 : List ℕ → ℕ
crc32 bs = crc64_to_crc32 (crc64 bs 0)

-- The checksum of two pieces goes on from that of the first.
pub crc64-append : (a b : List ℕ) (crc : ℕ) → crc64 (a ++ b) crc ≡ crc64 b (crc64 a crc)
unfolding crc64
crc64-append [] b crc = refl
crc64-append (x ∷ a) b crc = crc64-append a b (crc64_step crc x)

pub crc32-fits : (bs : List ℕ) → crc32 bs < 2 ^ 32
unfolding crc32 crc64_to_crc32
crc32-fits bs = omega arith
